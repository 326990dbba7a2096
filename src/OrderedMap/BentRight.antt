-- ===== src/OrderedMap/BentRight.antt =====
-- The double rotation of `rebalance` of src/OrderedMap.ts at a node whose right child is bent inwards.
use vjuga.Base.{ℕ, ◌≤◌, ◌≡◌, some, arith, sym, ◌∙◌, subst}
use vjuga.Base.Stores.{put_other}
use vjuga.OrderedMap.{OrderedMap, taller, rotate_right, rotate_left, turn_right_child}
use vjuga.OrderedMap.Tree.{Tree, node, stored, join}
use vjuga.OrderedMap.Memory.{SameAt-trans, occ, Holds, SameAt, Holds-frame, Once, Turned}
use vjuga.OrderedMap.TurnRight.{rotate_right-Turned}
use vjuga.OrderedMap.TurnLeft.{rotate_left-Turned}
use vjuga.OrderedMap.Attach.{attach_right}

module _ {K V : Type 0} where
  -- the double rotation at `i`, whose right child is bent
  module _ (m : OrderedMap K V) (a b c r : Tree K V) (i j y : ℕ) (k q z : K) (v w u : V) (f g h : ℕ)
      (d : Once (node r i k v h (node (node b y z u f c) j q w g a)))
      (e : (m.keys i ≡ k) × (m.vals i ≡ v))
      (hl : Holds m (node (node b y z u f c) j q w g a) (some j)) (hr : Holds m r (m.left i)) where
    abbrev m2 : OrderedMap K V
    m2 = (rotate_right m j).1

    abbrev m3 : OrderedMap K V
    m3 = turn_right_child m i j

    Once-child : Once (node (node b y z u f c) j q w g a)
    unfolding occ
    Once-child x = ground (arith, d x)

    Once-top : Once (node r i k v h (join b y z u (join c j q w a)))
    unfolding occ
    Once-top x = ground (arith, d x)

    not_i :
        (occ i (node (node b y z u f c) j q w g a) ≡ 0)
        × (occ i (join b y z u (join c j q w a)) ≡ 0)
        × (occ i r ≡ 0)
    unfolding occ
    not_i = ground (arith, d i)

    first :
        Turned m
          (node (node b y z u f c) j q w g a)
          (join b y z u (join c j q w a))
          (rotate_right m j).0
          m2
    unfolding Holds
    first =
        let h0 = hl in
        rotate_right-Turned m b c a y j z q u w f g Once-child (h0.1.0, h0.1.1) (h0.2) (h0.3)

    apart_child : (x : ℕ) → 1 ≤ occ x r → occ x (node (node b y z u f c) j q w g a) ≡ 0
    unfolding occ
    apart_child x o = ground (arith, o, d x)

    right_kept : Holds m2 r (m2.left i)
    right_kept =
        subst (Holds m2 r) (sym (first.frame i not_i.0).2)
          (Holds-frame m m2 r _ (λ x o. first.frame x (apart_child x o)) hr)

    attached : Holds m3 (join b y z u (join c j q w a)) (m3.right i) × Holds m3 r (m3.left i)
    unfolding turn_right_child
    attached =
        attach_right m2 i (some (rotate_right m j).0) (join b y z u (join c j q w a)) r not_i.1
          not_i.2 first.holds right_kept

    keys3 : (m3.keys i ≡ k) × (m3.vals i ≡ v)
    unfolding turn_right_child
    keys3 = ((first.frame i not_i.0).0 ∙ e.0, (first.frame i not_i.0).1 ∙ e.1)

    second :
        Turned m3
          (node r i k v h (join b y z u (join c j q w a)))
          (join (join r i k v b) y z u (join c j q w a))
          (rotate_left m3 i).0
          (rotate_left m3 i).1
    second =
        rotate_left-Turned m3 (join c j q w a) b r y i z k u v
          (taller (stored b) (stored (join c j q w a))) h Once-top (keys3.0, keys3.1) (attached.0)
          (attached.1)

    child_frame :
        (x : ℕ) → occ x (node r i k v h (node (node b y z u f c) j q w g a)) ≡ 0 → SameAt m m3 x
    unfolding turn_right_child occ
    child_frame x o =
        let s = first.frame x (ground (arith, o)) in
        (s.0, s.1, s.2, put_other m2.right i _ x (ne x o) ∙ s.3, s.4)
      where
        ne : (x : ℕ) → occ x (node r i k v h (node (node b y z u f c) j q w g a)) ≡ 0 → x ≡ i → ⊥
        ne x o s = absurd (ground (arith, o, s))

    same_slots :
        (x : ℕ)
        → occ x (node r i k v h (node (node b y z u f c) j q w g a)) ≡ 0
        → occ x (node r i k v h (join b y z u (join c j q w a))) ≡ 0
    unfolding occ
    same_slots x o = ground (arith, o)

    pub right_bent :
        Turned m
          (node r i k v h (node (node b y z u f c) j q w g a))
          (join (join r i k v b) y z u (join c j q w a))
          (rotate_left m3 i).0
          (rotate_left m3 i).1
    unfolding turn_right_child
    right_bent = record {
      holds = second.holds;
      frame = λ x o.
          SameAt-trans m m3 (rotate_left m3 i).1 x (child_frame x o)
            (second.frame x (same_slots x o));
      rest = (
        second.rest.0 ∙ first.rest.0,
        second.rest.1 ∙ first.rest.1,
        second.rest.2 ∙ first.rest.2,
        second.rest.3 ∙ first.rest.3,
      );
    }
