-- ===== src/OrderedMap/TreeInsert.antt =====
-- Insertion into a tree of src/OrderedMap.ts: the tree that `insertNode` leaves, its entries in
-- order and its heights.
use Prim.Native.Nat.{Ordering, lt, eq, gt}
use vjuga.Base.{
  ℕ, ◌+◌, ◌≤◌, ◌<◌, ◌≡◌, refl, Bool, true, false, List, [], ◌∷◌, ◌++◌, ◌==◌, if◌then◌else◌, arith,
  ap, sym, ◌∙◌, ◌⊎◌, inl, inr,
}
use vjuga.OrderedMap.{taller}
use vjuga.OrderedMap.Tree.{
  Tree, leaf, node, stored, flat, balanced, balanced-flat, IsAvl, balanced-IsAvl, balanced-height,
}
use vjuga.OrderedMap.Memory.{occ}

-- the height above a child that has grown by one at most
grown_left :
    (l l' r h x : ℕ)
    → h ≡ taller l r
    → l ≤ r + 1
    → r ≤ l + 1
    → l ≤ l'
    → l' ≤ l + 1
    → x ≤ taller l' r
    → taller l' r ≤ x + 1
    → (x ≡ taller l' r) ⊎ (r + 1 < l') ⊎ (l' + 1 < r)
    → (h ≤ x) × (x ≤ h + 1)
grown_left l l' r h x e m n a b c d f = ground arith

grown_right :
    (l r r' h x : ℕ)
    → h ≡ taller l r
    → l ≤ r + 1
    → r ≤ l + 1
    → r ≤ r'
    → r' ≤ r + 1
    → x ≤ taller l r'
    → taller l r' ≤ x + 1
    → (x ≡ taller l r') ⊎ (r' + 1 < l) ⊎ (l + 1 < r')
    → (h ≤ x) × (x ≤ h + 1)
grown_right l r r' h x e m n a b c d f = ground arith

pub Ordering-cases : (o : Ordering) → (o ≡ lt) ⊎ (o ≡ gt) ⊎ (o ≡ eq)
Ordering-cases lt = inl refl
Ordering-cases gt = inr (inl refl)
Ordering-cases eq = inr (inr refl)

module _ {K V : Type 0} where
  -- how often a slot is in a list of cells
  unfoldable pub occ_cells : ℕ → List (ℕ × K × V) → ℕ
  occ_cells x [] = 0
  occ_cells x (c ∷ cs) = (if x == c.0 then 1 else 0) + occ_cells x cs

  occ_cells-append :
      (x : ℕ) (xs ys : List (ℕ × K × V)) → occ_cells x (xs ++ ys) ≡ occ_cells x xs + occ_cells x ys
  unfolding occ_cells
  occ_cells-append x [] ys = omega arith
  occ_cells-append x (c ∷ xs) ys = omega (arith, occ_cells-append x xs ys)

  pub occ-flat : (x : ℕ) (t : Tree K V) → occ x t ≡ occ_cells x (flat t)
  unfolding occ flat occ_cells
  occ-flat x leaf = refl
  occ-flat x (node l i k v h r) =
      omega (arith, occ-flat x l, occ-flat x r, occ_cells-append x (flat l) ((i, k, v) ∷ flat r))

  pub occ-balanced :
      (x : ℕ) (l : Tree K V) (i : ℕ) (k : K) (v : V) (r : Tree K V)
      → occ x (balanced l i k v r) ≡ occ x (node l i k v 0 r)
  unfolding flat
  occ-balanced x l i k v r =
      occ-flat x (balanced l i k v r)
      ∙ ap (occ_cells x) (balanced-flat l i k v r)
      ∙ sym (occ-flat x (node l i k v 0 r))

module _ {K V : Type 0} (cmp : K → K → Ordering) where
  unfoldable pub insert_tree : ℕ → K → V → Tree K V → Tree K V
  insert_tree s key val leaf = node leaf s key val 1 leaf
  insert_tree s key val (node l i k v h r) = elim (cmp key k) [
    | lt ↦ balanced (insert_tree s key val l) i k v r
    | gt ↦ balanced l i k v (insert_tree s key val r)
    | eq ↦ node l i k val h r
  ]

  unfoldable pub has_key : K → Tree K V → Bool
  has_key key leaf = false
  has_key key (node l i k v h r) = elim (cmp key k) [
    | lt ↦ has_key key l
    | gt ↦ has_key key r
    | eq ↦ true
  ]

  pub occ-insert_tree :
      (x s : ℕ) (key : K) (val : V) (t : Tree K V)
      → occ x (insert_tree s key val t)
        ≡ occ x t + (if has_key key t then 0 else if x == s then 1 else 0)
  unfolding insert_tree has_key occ
  occ-insert_tree x s key val leaf = ground arith
  occ-insert_tree x s key val (node l i k v h r) = elim (Ordering-cases (cmp key k)) [
    | inl e ↦
        rw (e, insert_tree, has_key)
          (occ-balanced x (insert_tree s key val l) i k v r
            ∙ omega (arith, occ-insert_tree x s key val l))
    | inr (inl e) ↦
        rw (e, insert_tree, has_key)
          (occ-balanced x l i k v (insert_tree s key val r)
            ∙ omega (arith, occ-insert_tree x s key val r))
    | inr (inr e) ↦ rw (e, insert_tree, has_key) (omega arith)
  ]

  pub insert_tree-IsAvl :
      (s : ℕ) (key : K) (val : V) (t : Tree K V)
      → IsAvl t
      → IsAvl (insert_tree s key val t)
        × (stored t ≤ stored (insert_tree s key val t))
        × (stored (insert_tree s key val t) ≤ stored t + 1)
  unfolding insert_tree IsAvl
  insert_tree-IsAvl s key val leaf a =
      ((tt, tt, refl, omega arith, omega arith), omega arith, omega arith)
  insert_tree-IsAvl s key val (node l i k v h r) a = elim (Ordering-cases (cmp key k)) [
    | inl e ↦
        let b = insert_tree-IsAvl s key val l a.0 in
        let c =
          balanced-IsAvl (insert_tree s key val l) i k v r b.0 a.1 (omega (arith, b, a.3))
            (omega (arith, b, a.4)) in
        rw (e, insert_tree)
          (let g =
              grown_left (stored l) (stored (insert_tree s key val l)) (stored r) h _ a.2 a.3 a.4
                b.1 b.2 c.1 c.2 (balanced-height (insert_tree s key val l) i k v r) in
            (c.0, g.0, g.1))
    | inr (inl e) ↦
        let b = insert_tree-IsAvl s key val r a.1 in
        let c =
          balanced-IsAvl l i k v (insert_tree s key val r) a.0 b.0 (omega (arith, b, a.3))
            (omega (arith, b, a.4)) in
        rw (e, insert_tree)
          (let g =
              grown_right (stored l) (stored r) (stored (insert_tree s key val r)) h _ a.2 a.3 a.4
                b.1 b.2 c.1 c.2 (balanced-height l i k v (insert_tree s key val r)) in
            (c.0, g.0, g.1))
    | inr (inr e) ↦ rw (e, insert_tree) (a, omega arith, omega arith)
  ]
