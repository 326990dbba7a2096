-- ===== src/OrderedMap/Detach.antt =====
-- `deleteMin` of src/OrderedMap.ts, and a node that gets a smaller child, on the arrays.
use vjuga.Base.{
  ℕ, zero, suc, ◌+◌, ◌≤◌, ◌<◌, ◌≡◌, refl, Option, some, ◌==◌, if◌then◌else◌, arith, sym, ◌∙◌, subst,
}
use vjuga.Base.Stores.{put, put_other}
use vjuga.OrderedMap.{OrderedMap, rebalance}
use vjuga.OrderedMap.Tree.{Tree, leaf, node, stored, balanced, IsAvl}
use vjuga.OrderedMap.TreeDelete.{least, occ-least}
use vjuga.OrderedMap.Memory.{occ, Holds, SameAt, Holds-frame, Once, SameRest, Turned}
use vjuga.OrderedMap.Attach.{attach_left, attach_right}
use vjuga.OrderedMap.Rebalance.{rebalance-Turned}
use vjuga.OrderedMap.Insert.{lower}
use vjuga.OrderedMap.Delete.{Min, join_min, delete_min}

module _ {K V : Type 0} where
  module _ (m m' : OrderedMap K V) (l : Tree K V) (i : ℕ) (k : K) (v : V) (h : ℕ) (r : Tree K V)
      (d : Once (node l i k v h r)) (at : Holds m (node l i k v h r) (some i)) where
    -- the node over the left child that a deletion has left
    pub rejoin_left :
        (l' : Tree K V) (n : Option ℕ)
        → ((x : ℕ) → occ x l' ≤ occ x l)
        → ((x : ℕ) → occ x l ≡ 0 → SameAt m m' x)
        → Holds m' l' n
        → Turned m'
            (node l' i k v 0 r)
            (balanced l' i k v r)
            (rebalance (record m' { left = put m'.left i n }) i).0
            (rebalance (record m' { left = put m'.left i n }) i).1
    unfolding Holds occ
    rejoin_left l' n o u held = record { holds = t.holds; frame = frame_t; rest = t.rest }
      where
        same : SameAt m m' i
        same = u i (ground (arith, d i))

        m3 : OrderedMap K V
        m3 = record m' { left = put m'.left i n }

        kept : Holds m' r (m'.right i)
        kept =
            subst (Holds m' r) (sym same.3)
              (Holds-frame m m' r _ (λ x g. u x (ground (arith, d x, g))) at.3)

        attached : Holds m3 l' (m3.left i) × Holds m3 r (m3.right i)
        attached =
            attach_left m' i n l' r (ground (arith, o i, d i)) (ground (arith, d i)) held kept

        t :
            Turned m3
              (node l' i k v 0 r)
              (balanced l' i k v r)
              (rebalance m3 i).0
              (rebalance m3 i).1
        t =
            rebalance-Turned m3 l' i k v r (λ x. ground (arith, o x, d x))
              (same.0 ∙ at.1.0, same.1 ∙ at.1.1) attached.0 attached.1

        frame_t : (x : ℕ) → occ x (node l' i k v 0 r) ≡ 0 → SameAt m' (rebalance m3 i).1 x
        frame_t x z =
            let q = t.frame x z in
            (q.0, q.1, q.2 ∙ put_other m'.left i n x (λ s. absurd (ground (arith, z, s))), q.3, q.4)

    -- the node over the right child that a deletion has left
    pub rejoin_right :
        (r' : Tree K V) (n : Option ℕ)
        → ((x : ℕ) → occ x r' ≤ occ x r)
        → ((x : ℕ) → occ x r ≡ 0 → SameAt m m' x)
        → Holds m' r' n
        → Turned m'
            (node l i k v 0 r')
            (balanced l i k v r')
            (rebalance (record m' { right = put m'.right i n }) i).0
            (rebalance (record m' { right = put m'.right i n }) i).1
    unfolding Holds occ
    rejoin_right r' n o u held = record { holds = t.holds; frame = frame_t; rest = t.rest }
      where
        same : SameAt m m' i
        same = u i (ground (arith, d i))

        m3 : OrderedMap K V
        m3 = record m' { right = put m'.right i n }

        kept : Holds m' l (m'.left i)
        kept =
            subst (Holds m' l) (sym same.2)
              (Holds-frame m m' l _ (λ x g. u x (ground (arith, d x, g))) at.2)

        attached : Holds m3 r' (m3.right i) × Holds m3 l (m3.left i)
        attached =
            attach_right m' i n r' l (ground (arith, o i, d i)) (ground (arith, d i)) held kept

        t :
            Turned m3
              (node l i k v 0 r')
              (balanced l i k v r')
              (rebalance m3 i).0
              (rebalance m3 i).1
        t =
            rebalance-Turned m3 l i k v r' (λ x. ground (arith, o x, d x))
              (same.0 ∙ at.1.0, same.1 ∙ at.1.1) attached.1 attached.0

        frame_t : (x : ℕ) → occ x (node l i k v 0 r') ≡ 0 → SameAt m' (rebalance m3 i).1 x
        frame_t x z =
            let q = t.frame x z in
            (
              q.0,
              q.1,
              q.2,
              q.3 ∙ put_other m'.right i n x (λ s. absurd (ground (arith, z, s))),
              q.4,
            )

  -- what `deleteMin` leaves: the tree `t'`, the slot of the cell `c`, and the arrays as they were
  -- at the slots that are not in `t`; the slot taken out keeps its key and value
  pub record Detached (m : OrderedMap K V) (t : Tree K V) (c : ℕ × K × V) (t' : Tree K V)
      (out : Min K V) : Type 0 where
    pub holds : Holds out.2 t' out.0
    pub slot_is : out.1 ≡ c.0
    pub key_is : out.2.keys c.0 ≡ c.1
    pub val_is : out.2.vals c.0 ≡ c.2
    pub frame : (x : ℕ) → occ x t ≡ 0 → SameAt m out.2 x
    pub rest : SameRest m out.2

  join_min-Detached :
      (m : OrderedMap K V) (b : Tree K V) (j : ℕ) (q : K) (w : V) (g : ℕ) (c : Tree K V) (i : ℕ)
      (k : K) (v : V) (h : ℕ) (r : Tree K V) (out : Min K V)
      → Once (node (node b j q w g c) i k v h r)
      → Holds m (node (node b j q w g c) i k v h r) (some i)
      → Detached m (node b j q w g c) (least b j q w c).0 (least b j q w c).1 out
      → Detached m
          (node (node b j q w g c) i k v h r)
          (least (node b j q w g c) i k v r).0
          (least (node b j q w g c) i k v r).1
          (join_min i out)
  unfolding join_min least
  join_min-Detached m b j q w g c i k v h r out d at u = record {
    holds = t.holds;
    slot_is = u.slot_is;
    key_is = (t.frame s.0 gone).0 ∙ u.key_is;
    val_is = (t.frame s.0 gone).1 ∙ u.val_is;
    frame = frame_t;
    rest = (t.rest.0 ∙ u.rest.0, t.rest.1 ∙ u.rest.1, t.rest.2 ∙ u.rest.2, t.rest.3 ∙ u.rest.3);
  }
    where
      s : ℕ × K × V
      s = (least b j q w c).0

      l' : Tree K V
      l' = (least b j q w c).1

      m3 : OrderedMap K V
      m3 = record out.2 { left = put out.2.left i out.0 }

      o : (x : ℕ) → occ x (node b j q w g c) ≡ occ x l' + (if x == s.0 then 1 else 0)
      o x = occ-least x b j q w g c

      parts : (x : ℕ) → (if x == i then 1 else 0) + occ x (node b j q w g c) + occ x r ≤ 1
      parts x = unfold occ in d x

      t :
          Turned out.2
            (node l' i k v 0 r)
            (balanced l' i k v r)
            (rebalance m3 i).0
            (rebalance m3 i).1
      t =
          rejoin_left m out.2 (node b j q w g c) i k v h r d at l' out.0 (λ x. omega (arith, o x))
            u.frame u.holds

      outside : (x : ℕ) → occ x l' ≡ 0 → (x ≡ i → ⊥) → occ x r ≡ 0 → occ x (node l' i k v 0 r) ≡ 0
      outside x y n z = unfold occ in ground (arith, y, n, z)

      gone : occ s.0 (node l' i k v 0 r) ≡ 0
      gone =
          outside s.0 (ground (arith, parts s.0, o s.0))
            (λ e. absurd (ground (arith, e, parts s.0, o s.0))) (ground (arith, parts s.0, o s.0))

      frame_t :
          (x : ℕ) → occ x (node (node b j q w g c) i k v h r) ≡ 0 → SameAt m (rebalance m3 i).1 x
      frame_t x z =
          let y : (if x == i then 1 else 0) + occ x (node b j q w g c) + occ x r ≡ 0 =
            unfold occ in z in
          let p = u.frame x (omega (arith, y)) in
          let q' = t.frame x (
            outside x (omega (arith, y, o x)) (λ e. absurd (ground (arith, y, e)))
              (omega (arith, y))) in
          (q'.0 ∙ p.0, q'.1 ∙ p.1, q'.2 ∙ p.2, q'.3 ∙ p.3, q'.4 ∙ p.4)

  -- `deleteMin`, with fuel above the height, takes the first cell out of the tree.
  pub delete_min-Detached :
      (fuel : ℕ) (m : OrderedMap K V) (l : Tree K V) (i : ℕ) (k : K) (v : V) (h : ℕ) (r : Tree K V)
      → IsAvl (node l i k v h r)
      → h < fuel
      → Once (node l i k v h r)
      → Holds m (node l i k v h r) (some i)
      → Detached m (node l i k v h r) (least l i k v r).0 (least l i k v r).1 (delete_min fuel m i)
  unfolding delete_min least Holds IsAvl
  delete_min-Detached zero m l i k v h r a f d at = absurd (omega (arith, f))
  delete_min-Detached (suc fuel) m leaf i k v h r a f d at =
      rw (at.2, delete_min)
        (record {
          holds = at.3;
          slot_is = refl;
          key_is = at.1.0;
          val_is = at.1.1;
          frame = λ x o. (refl, refl, refl, refl, refl);
          rest = (refl, refl, refl, refl);
        })
  delete_min-Detached (suc fuel) m (node b j q w g c) i k v h r a f d at =
      rw (at.2.0, delete_min)
        (join_min-Detached m b j q w g c i k v h r (delete_min fuel m j) d at (
          delete_min-Detached fuel m b j q w g c a.0 (lower g (stored r) h fuel a.2 f).0
            (λ x. unfold occ in omega (arith, d x)) (refl, at.2.1, at.2.2, at.2.3)))
