-- ===== src/OrderedMap/Insert.antt =====
-- `insertNode` of src/OrderedMap.ts on the arrays that hold a tree.
use Prim.Native.Nat.{Ordering}
use vjuga.Base.{
  ℕ, zero, suc, ◌+◌, ◌≤◌, ◌<◌, ◌≡◌, refl, Bool, true, false, Option, none, some, List, [], ◌∷◌,
  ◌==◌, if◌then◌else◌, arith, ap, sym, ◌∙◌, lt→ltb, inl, inr, subst,
}
use vjuga.Base.Stores.{put, put_self, put_other}
use vjuga.OrderedMap.{
  OrderedMap, taller, alloc_node, alloc_from, new_node, join_left, join_right, insert_node,
  rebalance,
}
use vjuga.OrderedMap.Tree.{Tree, leaf, node, stored, balanced, IsAvl}
use vjuga.OrderedMap.TreeInsert.{Ordering-cases, insert_tree, has_key, occ-insert_tree}
use vjuga.OrderedMap.Memory.{occ, Holds, SameAt, Holds-frame, Once, Turned}
use vjuga.OrderedMap.Attach.{attach_left, attach_right}
use vjuga.OrderedMap.Rebalance.{rebalance-Turned}

pub lower : (l r h fuel : ℕ) → h ≡ taller l r → h < suc fuel → (l < fuel) × (r < fuel)
lower l r h fuel e lt' = ground arith

module _ {K V : Type 0} where
  -- the slot that the next new node gets
  abbrev pub next_slot : OrderedMap K V → ℕ
  next_slot m = (alloc_node m).0

  alloc_from-same :
      (m : OrderedMap K V) (free : List ℕ) (x : ℕ) → x < m.len → SameAt m (alloc_from m free).1 x
  unfolding alloc_from
  alloc_from-same m (n ∷ free) x h = (refl, refl, refl, refl, refl)
  alloc_from-same m [] x h = rw (lt→ltb x m.len h) (refl, refl, refl, refl, refl)

  alloc_node-same : (m : OrderedMap K V) (x : ℕ) → x < m.len → SameAt m (alloc_node m).1 x
  unfolding alloc_node
  alloc_node-same m x h = alloc_from-same m m.free x h

  -- What `insertNode` leaves: the tree `t'` below `n`, and the arrays as they were at the slots that
  -- are not in `t` nor new; the size and the free list are those of the allocation if the key is new.
  pub record Inserted (m : OrderedMap K V) (t t' : Tree K V) (present : Bool) (n : Option ℕ)
      (m' : OrderedMap K V) : Type 0 where
    pub holds : Holds m' t' n
    pub frame : (x : ℕ) → occ x t ≡ 0 → (x ≡ next_slot m → ⊥) → x < m.len → SameAt m m' x
    pub size_is : m'.size ≡ m.size + (if present then 0 else 1)
    pub free_is : m'.free ≡ (if present then m.free else (alloc_node m).1.free)
    pub len_is : m'.len ≡ (if present then m.len else (alloc_node m).1.len)

  alloc_from-size : (m : OrderedMap K V) (free : List ℕ) → (alloc_from m free).1.size ≡ m.size
  unfolding alloc_from
  alloc_from-size m (n ∷ free) = refl
  alloc_from-size m [] = refl

  new_node-Inserted :
      (m : OrderedMap K V) (key : K) (val : V)
      → Inserted m leaf
          (node leaf (next_slot m) key val 1 leaf)
          false
          (new_node key val (alloc_node m)).0
          (new_node key val (alloc_node m)).1
  unfolding new_node Holds
  new_node-Inserted m key val = record {
    holds = (
      refl,
      (put_self a.keys s key, put_self a.vals s val, put_self a.height s 1),
      put_self a.left s none,
      put_self a.right s none,
    );
    frame = λ x o n h.
        let b = alloc_node-same m x h in
        (
          put_other a.keys s key x n ∙ b.0,
          put_other a.vals s val x n ∙ b.1,
          put_other a.left s none x n ∙ b.2,
          put_other a.right s none x n ∙ b.3,
          put_other a.height s 1 x n ∙ b.4,
        );
    size_is = ap (λ z. z + 1) (unfold alloc_node in alloc_from-size m m.free);
    free_is = refl;
    len_is = refl;
  }
    where
      s : ℕ
      s = next_slot m

      a : OrderedMap K V
      a = (alloc_node m).1

  module _ (m : OrderedMap K V) (l : Tree K V) (i : ℕ) (k : K) (v : V) (h : ℕ) (r : Tree K V)
      (d : Once (node l i k v h r)) (w : (x : ℕ) → 1 ≤ occ x (node l i k v h r) → x < m.len)
      (f : occ (next_slot m) (node l i k v h r) ≡ 0)
      (at : Holds m (node l i k v h r) (some i)) where
    -- the node over the left child that an insertion has left
    joined_left :
        (l' : Tree K V) (b : Bool) (n : Option ℕ) (m' : OrderedMap K V)
        → ((x : ℕ) → occ x l' ≡ occ x l + (if b then 0 else if x == next_slot m then 1 else 0))
        → Inserted m l l' b n m'
        → Inserted m
            (node l i k v h r)
            (balanced l' i k v r)
            b
            (join_left i (n, m')).0
            (join_left i (n, m')).1
    unfolding join_left Holds occ
    joined_left l' b n m' o u = record {
      holds = t.holds;
      frame = frame_t;
      size_is = t.rest.1 ∙ u.size_is;
      free_is = t.rest.2 ∙ u.free_is;
      len_is = t.rest.3 ∙ u.len_is;
    }
      where
        from_next : (x : ℕ) → x ≡ next_slot m → occ x (node l i k v h r) ≡ 0
        from_next x s = ap (λ z. occ z (node l i k v h r)) s ∙ f

        root_same : SameAt m m' i
        root_same =
            u.frame i (ground (arith, d i)) (λ s. absurd (ground (arith, from_next i s)))
              (w i (ground arith))

        m3 : OrderedMap K V
        m3 = record m' { left = put m'.left i n }

        other_kept : Holds m' r (m'.right i)
        other_kept = subst (Holds m' r) (sym root_same.3) (
            Holds-frame m m' r _
              (λ x g.
                u.frame x (ground (arith, d x, g)) (λ s. absurd (ground (arith, g, from_next x s)))
                  (w x (omega (arith, g))))
              at.3)

        attached : Holds m3 l' (m3.left i) × Holds m3 r (m3.right i)
        attached =
            attach_left m' i n l' r (ground (arith, o i, d i, from_next i)) (ground (arith, d i))
              u.holds other_kept

        t :
            Turned m3
              (node l' i k v 0 r)
              (balanced l' i k v r)
              (rebalance m3 i).0
              (rebalance m3 i).1
        t =
            rebalance-Turned m3 l' i k v r (λ x. ground (arith, o x, d x, from_next x))
              (root_same.0 ∙ at.1.0, root_same.1 ∙ at.1.1) (attached.0) (attached.1)

        frame_t :
            (x : ℕ)
            → occ x (node l i k v h r) ≡ 0
            → (x ≡ next_slot m → ⊥)
            → x < m.len
            → SameAt m (rebalance m3 i).1 x
        frame_t x z n' c =
            let p = u.frame x (ground (arith, z)) n' c in
            let q = t.frame x (ground (arith, z, o x, n')) in
            (
              q.0 ∙ p.0,
              q.1 ∙ p.1,
              q.2 ∙ put_other m'.left i n x (λ s. absurd (ground (arith, z, s))) ∙ p.2,
              q.3 ∙ p.3,
              q.4 ∙ p.4,
            )

    -- the node over the right child that an insertion has left
    joined_right :
        (l' : Tree K V) (b : Bool) (n : Option ℕ) (m' : OrderedMap K V)
        → ((x : ℕ) → occ x l' ≡ occ x r + (if b then 0 else if x == next_slot m then 1 else 0))
        → Inserted m r l' b n m'
        → Inserted m
            (node l i k v h r)
            (balanced l i k v l')
            b
            (join_right i (n, m')).0
            (join_right i (n, m')).1
    unfolding join_right Holds occ
    joined_right l' b n m' o u = record {
      holds = t.holds;
      frame = frame_t;
      size_is = t.rest.1 ∙ u.size_is;
      free_is = t.rest.2 ∙ u.free_is;
      len_is = t.rest.3 ∙ u.len_is;
    }
      where
        from_next : (x : ℕ) → x ≡ next_slot m → occ x (node l i k v h r) ≡ 0
        from_next x s = ap (λ z. occ z (node l i k v h r)) s ∙ f

        root_same : SameAt m m' i
        root_same =
            u.frame i (ground (arith, d i)) (λ s. absurd (ground (arith, from_next i s)))
              (w i (ground arith))

        m3 : OrderedMap K V
        m3 = record m' { right = put m'.right i n }

        other_kept : Holds m' l (m'.left i)
        other_kept = subst (Holds m' l) (sym root_same.2) (
            Holds-frame m m' l _
              (λ x g.
                u.frame x (ground (arith, d x, g)) (λ s. absurd (ground (arith, g, from_next x s)))
                  (w x (omega (arith, g))))
              at.2)

        attached : Holds m3 l' (m3.right i) × Holds m3 l (m3.left i)
        attached =
            attach_right m' i n l' l (ground (arith, o i, d i, from_next i)) (ground (arith, d i))
              u.holds other_kept

        t :
            Turned m3
              (node l i k v 0 l')
              (balanced l i k v l')
              (rebalance m3 i).0
              (rebalance m3 i).1
        t =
            rebalance-Turned m3 l i k v l' (λ x. ground (arith, o x, d x, from_next x))
              (root_same.0 ∙ at.1.0, root_same.1 ∙ at.1.1) (attached.1) (attached.0)

        frame_t :
            (x : ℕ)
            → occ x (node l i k v h r) ≡ 0
            → (x ≡ next_slot m → ⊥)
            → x < m.len
            → SameAt m (rebalance m3 i).1 x
        frame_t x z n' c =
            let p = u.frame x (ground (arith, z)) n' c in
            let q = t.frame x (ground (arith, z, o x, n')) in
            (
              q.0 ∙ p.0,
              q.1 ∙ p.1,
              q.2 ∙ p.2,
              q.3 ∙ put_other m'.right i n x (λ s. absurd (ground (arith, z, s))) ∙ p.3,
              q.4 ∙ p.4,
            )

module _ {K V : Type 0} (cmp : K → K → Ordering) where
  module _ (l : Tree K V) (i : ℕ) (k : K) (v : V) (h : ℕ) (r : Tree K V) where
    Once-parts : Once (node l i k v h r) → Once l × Once r
    unfolding occ
    Once-parts d = (λ x. omega (arith, d x), λ x. omega (arith, d x))

    within_parts :
        (n : ℕ)
        → ((x : ℕ) → 1 ≤ occ x (node l i k v h r) → x < n)
        → ((x : ℕ) → 1 ≤ occ x l → x < n) × ((x : ℕ) → 1 ≤ occ x r → x < n)
    unfolding occ
    within_parts n w = (λ x o. w x (omega (arith, o)), λ x o. w x (omega (arith, o)))

    absent_parts : (s : ℕ) → occ s (node l i k v h r) ≡ 0 → (occ s l ≡ 0) × (occ s r ≡ 0)
    unfolding occ
    absent_parts s o = omega (arith, o)

  replaced-Inserted :
      (m : OrderedMap K V) (l : Tree K V) (i : ℕ) (k : K) (v val : V) (h : ℕ) (r : Tree K V)
      → Once (node l i k v h r)
      → Holds m (node l i k v h r) (some i)
      → Inserted m
          (node l i k v h r)
          (node l i k val h r)
          true
          (some i)
          (record m { vals = put m.vals i val })
  unfolding Holds occ
  replaced-Inserted m l i k v val h r d at = record {
    holds = (
      refl,
      (at.1.0, put_self m.vals i val, at.1.2),
      Holds-frame m m' l _
          (λ x o. other x (λ s. absurd (ground (arith, o, d i, ap (λ z. occ z l) s)))) at.2,
      Holds-frame m m' r _
          (λ x o. other x (λ s. absurd (ground (arith, o, d i, ap (λ z. occ z r) s)))) at.3,
    );
    frame = λ x o n c. other x (λ s. absurd (ground (arith, o, s)));
    size_is = omega arith;
    free_is = refl;
    len_is = refl;
  }
    where
      m' : OrderedMap K V
      m' = record m { vals = put m.vals i val }

      other : (x : ℕ) → (x ≡ i → ⊥) → SameAt m m' x
      other x n = (refl, put_other m.vals i val x n, refl, refl, refl)

  -- `insertNode`, with fuel above the height, leaves the tree with the key inserted.
  pub insert_node-Inserted :
      (fuel : ℕ) (m : OrderedMap K V) (t : Tree K V) (n : Option ℕ) (key : K) (val : V)
      → IsAvl t
      → stored t < fuel
      → Once t
      → ((x : ℕ) → 1 ≤ occ x t → x < m.len)
      → occ (next_slot m) t ≡ 0
      → Holds m t n
      → Inserted m t
          (insert_tree cmp (next_slot m) key val t)
          (has_key cmp key t)
          (insert_node cmp fuel m n key val).0
          (insert_node cmp fuel m n key val).1
  unfolding insert_node insert_tree has_key Holds IsAvl
  insert_node-Inserted zero m t n key val a lt' d w f at = absurd (omega (arith, lt'))
  insert_node-Inserted (suc fuel) m leaf n key val a lt' d w f at =
      rw at (new_node-Inserted m key val)
  insert_node-Inserted (suc fuel) m (node l i k v h r) n key val a lt' d w f at =
      rw at.0 (elim (Ordering-cases (cmp key k)) [
        | inl e ↦
            rw (e, key_at at.1.0 e, insert_node, insert_tree, has_key)
              (joined_left m l i k v h r d w f here (insert_tree cmp (next_slot m) key val l)
                (has_key cmp key l) (insert_node cmp fuel m (m.left i) key val).0
                (insert_node cmp fuel m (m.left i) key val).1
                (λ x. occ-insert_tree cmp x (next_slot m) key val l)
                (insert_node-Inserted fuel m l (m.left i) key val a.0 low.0 ol.0 wl.0 fl.0 at.2))
        | inr (inl e) ↦
            rw (e, key_at at.1.0 e, insert_node, insert_tree, has_key)
              (joined_right m l i k v h r d w f here (insert_tree cmp (next_slot m) key val r)
                (has_key cmp key r) (insert_node cmp fuel m (m.right i) key val).0
                (insert_node cmp fuel m (m.right i) key val).1
                (λ x. occ-insert_tree cmp x (next_slot m) key val r)
                (insert_node-Inserted fuel m r (m.right i) key val a.1 low.1 ol.1 wl.1 fl.1 at.3))
        | inr (inr e) ↦
            rw (e, key_at at.1.0 e, insert_node, insert_tree, has_key)
              (replaced-Inserted m l i k v val h r d here)
      ])
    where
      here : Holds m (node l i k v h r) (some i)
      here = (refl, at.1, at.2, at.3)

      key_at : {o : Ordering} → m.keys i ≡ k → cmp key k ≡ o → cmp key (m.keys i) ≡ o
      key_at g e = ap (cmp key) g ∙ e

      low : (stored l < fuel) × (stored r < fuel)
      low = lower (stored l) (stored r) h fuel a.2 lt'

      ol : Once l × Once r
      ol = Once-parts l i k v h r d

      wl : ((x : ℕ) → 1 ≤ occ x l → x < m.len) × ((x : ℕ) → 1 ≤ occ x r → x < m.len)
      wl = within_parts l i k v h r m.len w

      fl : (occ (next_slot m) l ≡ 0) × (occ (next_slot m) r ≡ 0)
      fl = absent_parts l i k v h r (next_slot m) f
