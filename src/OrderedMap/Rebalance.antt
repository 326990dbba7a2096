-- ===== src/OrderedMap/Rebalance.antt =====
-- `rebalance` of src/OrderedMap.ts on the arrays that hold a tree.
use vjuga.Base.{
  ℕ, ◌+◌, ◌≤◌, ◌<◌, ◌≡◌, refl, Option, some, ltb, if◌then◌else◌, arith, ltb→lt, Bool-cases, inl,
  inr, subst,
}
use vjuga.OrderedMap.{
  OrderedMap, taller, node_of, node_height, update_height, rotate_right, rotate_left,
  turn_left_child, turn_right_child, rebalance_by, rebalance,
}
use vjuga.OrderedMap.Tree.{
  Tree, leaf, node, stored, join, turn_left, turn_right, unbend_left, unbend_right, balanced,
}
use vjuga.OrderedMap.Memory.{
  SameAt-trans, Holds-stored, occ, Holds, Holds-frame, Once, update_height-same,
  update_height-Holds, apart, Turned,
}
use vjuga.OrderedMap.TurnRight.{rotate_right-Turned}
use vjuga.OrderedMap.TurnLeft.{rotate_left-Turned}
use vjuga.OrderedMap.BentLeft.{left_bent as double_left}
use vjuga.OrderedMap.BentRight.{right_bent as double_right}

module _ {K V : Type 0} where
  module _ (m : OrderedMap K V) (l : Tree K V) (i : ℕ) (k : K) (v : V) (r : Tree K V)
      (d : Once (node l i k v 0 r)) (e : (m.keys i ≡ k) × (m.vals i ≡ v))
      (hl : Holds m l (m.left i)) (hr : Holds m r (m.right i)) where
    abbrev top_height : ℕ
    top_height = taller (stored l) (stored r)

    abbrev fresh : OrderedMap K V
    fresh = update_height m i

    not_inside : (occ i l ≡ 0) × (occ i r ≡ 0)
    unfolding occ
    not_inside = ground (arith, d i)

    in_left : Holds fresh l (m.left i)
    in_left =
        Holds-frame m fresh l _ (λ x o. update_height-same m i x (apart l i x not_inside.0 o)) hl

    in_right : Holds fresh r (m.right i)
    in_right =
        Holds-frame m fresh r _ (λ x o. update_height-same m i x (apart r i x not_inside.1 o)) hr

    -- what a rotation at `i` after the update leaves
    after_update :
        (t : Tree K V) (j : ℕ) (m' : OrderedMap K V)
        → Turned fresh (node l i k v top_height r) t j m'
        → Turned m (node l i k v 0 r) t j m'
    unfolding update_height occ
    after_update t j m' u = record {
      holds = u.holds;
      frame = λ x o.
          SameAt-trans m fresh m' x (update_height-same m i x (λ s. absurd (ground (arith, o, s))))
            (u.frame x o);
      rest = u.rest;
    }

    flat_case : Turned m (node l i k v 0 r) (join l i k v r) i fresh
    unfolding occ
    flat_case = record {
      holds = update_height-Holds m l i k v r e hl hr not_inside.0 not_inside.1;
      frame = λ x o. update_height-same m i x (λ s. absurd (ground (arith, o, s)));
      rest = unfold update_height in (refl, refl, refl, refl);
    }

    heights : (node_height m (m.left i) ≡ stored l) × (node_height m (m.right i) ≡ stored r)
    heights = (Holds-stored m l (m.left i) hl, Holds-stored m r (m.right i) hr)

    Once-fresh : Once (node l i k v top_height r)
    unfolding occ
    Once-fresh x = d x

    keys_fresh : (fresh.keys i ≡ k) × (fresh.vals i ≡ v)
    unfolding update_height
    keys_fresh = e

  -- the two heights that say whether the child `j` is bent
  bent_heights_are :
      (m : OrderedMap K V) (a : Tree K V) (j : ℕ) (q : K) (w : V) (g : ℕ) (b : Tree K V)
      → Holds m (node a j q w g b) (some j)
      → (node_height m (m.left j) ≡ stored a) × (node_height m (m.right j) ≡ stored b)
  unfolding Holds
  bent_heights_are m a j q w g b h = (Holds-stored m a _ h.2, Holds-stored m b _ h.3)

  root_is :
      (m : OrderedMap K V) (a : Tree K V) (j : ℕ) (q : K) (w : V) (g : ℕ) (b : Tree K V)
      (n : Option ℕ)
      → Holds m (node a j q w g b) n
      → n ≡ some j
  unfolding Holds
  root_is m a j q w g b n h = h.0

  abbrev unbent : OrderedMap K V → ℕ → ℕ → OrderedMap K V
  unbent m i j =
      if ltb (node_height m (m.left j)) (node_height m (m.right j))
      then turn_left_child m i j
      else m

  left_heavy :
      (m : OrderedMap K V) (l : Tree K V) (i : ℕ) (k : K) (v : V) (h : ℕ) (r : Tree K V)
      → Once (node l i k v h r)
      → (m.keys i ≡ k) × (m.vals i ≡ v)
      → Holds m l (m.left i)
      → Holds m r (m.right i)
      → 1 ≤ stored l
      → Turned m
          (node l i k v h r)
          (turn_right (node (unbend_left l) i k v h r))
          (rotate_right (unbent m i (node_of (m.left i))) i).0
          (rotate_right (unbent m i (node_of (m.left i))) i).1
  unfolding turn_right unbend_left turn_left
  left_heavy m leaf i k v h r d e hl hr p = absurd (omega (arith, p))
  left_heavy m (node a j q w g b) i k v h r d e hl hr p =
      let is = root_is m a j q w g b (m.left i) hl in
      let here = subst (Holds m (node a j q w g b)) is hl in
      let hs = bent_heights_are m a j q w g b here in
      rw (is, hs.0, hs.1)
        (elim (Bool-cases (ltb (stored a) (stored b))) [
          | inl c ↦ rw c (bent b (ltb→lt _ _ c) d here)
          | inr c ↦ rw c (rotate_right-Turned m a b r j i q k w v g h d e hl hr)
        ])
    where
      bent :
          (b : Tree K V)
          → stored a < stored b
          → Once (node (node a j q w g b) i k v h r)
          → Holds m (node a j q w g b) (some j)
          → Turned m
              (node (node a j q w g b) i k v h r)
              (turn_right (node (turn_left (node a j q w g b)) i k v h r))
              (rotate_right (turn_left_child m i j) i).0
              (rotate_right (turn_left_child m i j) i).1
      bent leaf lt d hl = absurd (omega (arith, lt))
      bent (node c y z u f b) lt d hl = double_left m a b c r i j y k q z v w u f g h d e hl hr

  abbrev unbent_right : OrderedMap K V → ℕ → ℕ → OrderedMap K V
  unbent_right m i j =
      if ltb (node_height m (m.right j)) (node_height m (m.left j))
      then turn_right_child m i j
      else m

  right_heavy :
      (m : OrderedMap K V) (l : Tree K V) (i : ℕ) (k : K) (v : V) (h : ℕ) (r : Tree K V)
      → Once (node l i k v h r)
      → (m.keys i ≡ k) × (m.vals i ≡ v)
      → Holds m l (m.left i)
      → Holds m r (m.right i)
      → 1 ≤ stored r
      → Turned m
          (node l i k v h r)
          (turn_left (node l i k v h (unbend_right r)))
          (rotate_left (unbent_right m i (node_of (m.right i))) i).0
          (rotate_left (unbent_right m i (node_of (m.right i))) i).1
  unfolding turn_right unbend_right turn_left
  right_heavy m l i k v h leaf d e hl hr p = absurd (omega (arith, p))
  right_heavy m l i k v h (node b j q w g a) d e hl hr p =
      let is = root_is m b j q w g a (m.right i) hr in
      let here = subst (Holds m (node b j q w g a)) is hr in
      let hs = bent_heights_are m b j q w g a here in
      rw (is, hs.0, hs.1)
        (elim (Bool-cases (ltb (stored a) (stored b))) [
          | inl c ↦ rw c (bent b (ltb→lt _ _ c) d here)
          | inr c ↦ rw c (rotate_left-Turned m a b l j i q k w v g h d e hr hl)
        ])
    where
      bent :
          (b : Tree K V)
          → stored a < stored b
          → Once (node l i k v h (node b j q w g a))
          → Holds m (node b j q w g a) (some j)
          → Turned m
              (node l i k v h (node b j q w g a))
              (turn_left (node l i k v h (turn_right (node b j q w g a))))
              (rotate_left (turn_right_child m i j) i).0
              (rotate_left (turn_right_child m i j) i).1
      bent leaf lt d hr = absurd (omega (arith, lt))
      bent (node b y z u f c) lt d hr = double_right m a b c l i j y k q z v w u f g h d e hr hl

  by-Turned :
      (m : OrderedMap K V) (l : Tree K V) (i : ℕ) (k : K) (v : V) (h : ℕ) (r : Tree K V)
      → Once (node l i k v h r)
      → (m.keys i ≡ k) × (m.vals i ≡ v)
      → Holds m l (m.left i)
      → Holds m r (m.right i)
      → Holds m (node l i k v h r) (some i)
      → Turned m
          (node l i k v h r)
          (if ltb (stored r + 1) (stored l)
            then turn_right (node (unbend_left l) i k v h r)
            else if ltb (stored l + 1) (stored r)
            then turn_left (node l i k v h (unbend_right r))
            else node l i k v h r)
          (rebalance_by m i (stored l) (stored r)).0
          (rebalance_by m i (stored l) (stored r)).1
  unfolding rebalance_by
  by-Turned m l i k v h r d e hl hr here = elim (Bool-cases (ltb (stored r + 1) (stored l))) [
    | inl c ↦ rw c (left_heavy m l i k v h r d e hl hr (omega (arith, ltb→lt _ _ c)))
    | inr c ↦ elim (Bool-cases (ltb (stored l + 1) (stored r))) [
      | inl f ↦ rw (c, f) (right_heavy m l i k v h r d e hl hr (omega (arith, ltb→lt _ _ f)))
      | inr f ↦
          rw (c, f)
            (record {
              holds = here;
              frame = λ x o. (refl, refl, refl, refl, refl);
              rest = (refl, refl, refl, refl);
            })
    ]
  ]

  module _ (m : OrderedMap K V) (l : Tree K V) (i : ℕ) (k : K) (v : V) (r : Tree K V)
      (d : Once (node l i k v 0 r)) (e : (m.keys i ≡ k) × (m.vals i ≡ v))
      (hl : Holds m l (m.left i)) (hr : Holds m r (m.right i)) where
    il : Holds (update_height m i) l ((update_height m i).left i)
    unfolding update_height
    il = in_left m l i k v r d e hl hr

    ir : Holds (update_height m i) r ((update_height m i).right i)
    unfolding update_height
    ir = in_right m l i k v r d e hl hr

    -- `rebalance` at a node over two trees leaves the balanced tree, and nothing else changes.
    pub rebalance-Turned :
        Turned m (node l i k v 0 r) (balanced l i k v r) (rebalance m i).0 (rebalance m i).1
    unfolding rebalance balanced
    rebalance-Turned =
        let hs = heights m l i k v r d e hl hr in
        rw (hs.0, hs.1)
          (after_update m l i k v r d e hl hr _
            (rebalance_by (update_height m i) i (stored l) (stored r)).0
            (rebalance_by (update_height m i) i (stored l) (stored r)).1
            (by-Turned (update_height m i) l i k v (taller (stored l) (stored r)) r
              (Once-fresh m l i k v r d e hl hr) (keys_fresh m l i k v r d e hl hr) il ir
              (flat_case m l i k v r d e hl hr).holds))
