-- ===== src/OrderedMap/BentLeft.antt =====
-- The double rotation of `rebalance` of src/OrderedMap.ts at a node whose left child is bent inwards.
use vjuga.Base.{ℕ, ◌≤◌, ◌≡◌, some, arith, sym, ◌∙◌, subst}
use vjuga.Base.Stores.{put_other}
use vjuga.OrderedMap.{OrderedMap, taller, rotate_right, rotate_left, turn_left_child}
use vjuga.OrderedMap.Tree.{Tree, node, stored, join}
use vjuga.OrderedMap.Memory.{SameAt-trans, occ, Holds, SameAt, Holds-frame, Once, Turned}
use vjuga.OrderedMap.TurnRight.{rotate_right-Turned}
use vjuga.OrderedMap.TurnLeft.{rotate_left-Turned}
use vjuga.OrderedMap.Attach.{attach_left}

module _ {K V : Type 0} where
  -- the double rotation at `i`, whose left child is bent
  module _ (m : OrderedMap K V) (a b c r : Tree K V) (i j y : ℕ) (k q z : K) (v w u : V) (f g h : ℕ)
      (d : Once (node (node a j q w g (node c y z u f b)) i k v h r))
      (e : (m.keys i ≡ k) × (m.vals i ≡ v))
      (hl : Holds m (node a j q w g (node c y z u f b)) (some j)) (hr : Holds m r (m.right i)) where
    abbrev m2 : OrderedMap K V
    m2 = (rotate_left m j).1

    abbrev m3 : OrderedMap K V
    m3 = turn_left_child m i j

    Once-child : Once (node a j q w g (node c y z u f b))
    unfolding occ
    Once-child x = ground (arith, d x)

    Once-top : Once (node (join (join a j q w c) y z u b) i k v h r)
    unfolding occ
    Once-top x = ground (arith, d x)

    not_i :
        (occ i (node a j q w g (node c y z u f b)) ≡ 0)
        × (occ i (join (join a j q w c) y z u b) ≡ 0)
        × (occ i r ≡ 0)
    unfolding occ
    not_i = ground (arith, d i)

    first :
        Turned m
          (node a j q w g (node c y z u f b))
          (join (join a j q w c) y z u b)
          (rotate_left m j).0
          m2
    unfolding Holds
    first =
        let h0 = hl in
        rotate_left-Turned m b c a y j z q u w f g Once-child (h0.1.0, h0.1.1) (h0.3) (h0.2)

    apart_child : (x : ℕ) → 1 ≤ occ x r → occ x (node a j q w g (node c y z u f b)) ≡ 0
    unfolding occ
    apart_child x o = ground (arith, o, d x)

    right_kept : Holds m2 r (m2.right i)
    right_kept =
        subst (Holds m2 r) (sym (first.frame i not_i.0).3)
          (Holds-frame m m2 r _ (λ x o. first.frame x (apart_child x o)) hr)

    attached : Holds m3 (join (join a j q w c) y z u b) (m3.left i) × Holds m3 r (m3.right i)
    unfolding turn_left_child
    attached =
        attach_left m2 i (some (rotate_left m j).0) (join (join a j q w c) y z u b) r not_i.1
          not_i.2 first.holds right_kept

    keys3 : (m3.keys i ≡ k) × (m3.vals i ≡ v)
    unfolding turn_left_child
    keys3 = ((first.frame i not_i.0).0 ∙ e.0, (first.frame i not_i.0).1 ∙ e.1)

    second :
        Turned m3
          (node (join (join a j q w c) y z u b) i k v h r)
          (join (join a j q w c) y z u (join b i k v r))
          (rotate_right m3 i).0
          (rotate_right m3 i).1
    second =
        rotate_right-Turned m3 (join a j q w c) b r y i z k u v
          (taller (stored (join a j q w c)) (stored b)) h Once-top (keys3.0, keys3.1) (attached.0)
          (attached.1)

    child_frame :
        (x : ℕ) → occ x (node (node a j q w g (node c y z u f b)) i k v h r) ≡ 0 → SameAt m m3 x
    unfolding turn_left_child occ
    child_frame x o =
        let s = first.frame x (ground (arith, o)) in
        (s.0, s.1, put_other m2.left i _ x (ne x o) ∙ s.2, s.3, s.4)
      where
        ne : (x : ℕ) → occ x (node (node a j q w g (node c y z u f b)) i k v h r) ≡ 0 → x ≡ i → ⊥
        ne x o s = absurd (ground (arith, o, s))

    same_slots :
        (x : ℕ)
        → occ x (node (node a j q w g (node c y z u f b)) i k v h r) ≡ 0
        → occ x (node (join (join a j q w c) y z u b) i k v h r) ≡ 0
    unfolding occ
    same_slots x o = ground (arith, o)

    pub left_bent :
        Turned m
          (node (node a j q w g (node c y z u f b)) i k v h r)
          (join (join a j q w c) y z u (join b i k v r))
          (rotate_right m3 i).0
          (rotate_right m3 i).1
    unfolding turn_left_child
    left_bent = record {
      holds = second.holds;
      frame = λ x o.
          SameAt-trans m m3 (rotate_right m3 i).1 x (child_frame x o)
            (second.frame x (same_slots x o));
      rest = (
        second.rest.0 ∙ first.rest.0,
        second.rest.1 ∙ first.rest.1,
        second.rest.2 ∙ first.rest.2,
        second.rest.3 ∙ first.rest.3,
      );
    }
