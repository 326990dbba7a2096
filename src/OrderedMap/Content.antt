-- ===== src/OrderedMap/Content.antt =====
-- The entries in order of a tree of src/OrderedMap.ts, its insertion and its lookups.
use Prim.Native.Nat.{Ordering, eq, gt}
use vjuga.Base.{
  ℕ, suc, ◌+◌, ◌≤◌, ◌≡◌, refl, List, [], ◌∷◌, ◌++◌, arith, ap, sym, ◌∙◌, ◌⊎◌, inl, inr, subst,
  length, length-append, if◌then◌else◌,
}
use vjuga.OrderedMap.{taller}
use vjuga.OrderedMap.Tree.{Tree, leaf, node, stored, flat, balanced, balanced-flat, IsAvl}
use vjuga.OrderedMap.TreeInsert.{Ordering-cases, insert_tree, has_key}
use vjuga.OrderedMap.Sorted.{
  IsOrder, Sorted, Below, Sorted-left, Sorted-right, Sorted-Below, insert, insert-before,
  insert-after,
}

longer : (l r h ll lr : ℕ) → h ≡ taller l r → l ≤ ll → r ≤ lr → h ≤ ll + suc lr
longer l r h ll lr e m n = ground arith

module _ {K V : Type 0} where
  -- the entries of the cells
  abbrev pub pairs : List (ℕ × K × V) → List (K × V)
  pairs [] = []
  pairs (c ∷ cs) = (c.1, c.2) ∷ pairs cs

  pub pairs-append : (xs ys : List (ℕ × K × V)) → pairs (xs ++ ys) ≡ pairs xs ++ pairs ys
  pairs-append [] ys = refl
  pairs-append (c ∷ xs) ys = ap (λ l. (c.1, c.2) ∷ l) (pairs-append xs ys)

  length-pairs : (xs : List (ℕ × K × V)) → length (pairs xs) ≡ length xs
  length-pairs [] = refl
  length-pairs (c ∷ xs) = ap suc (length-pairs xs)

  unfoldable pub content : Tree K V → List (K × V)
  content t = pairs (flat t)

  pub content-node :
      (l : Tree K V) (i : ℕ) (k : K) (v : V) (h : ℕ) (r : Tree K V)
      → content (node l i k v h r) ≡ content l ++ (k, v) ∷ content r
  unfolding flat content
  content-node l i k v h r = pairs-append (flat l) ((i, k, v) ∷ flat r)

  pub content-balanced :
      (l : Tree K V) (i : ℕ) (k : K) (v : V) (r : Tree K V)
      → content (balanced l i k v r) ≡ content l ++ (k, v) ∷ content r
  unfolding content
  content-balanced l i k v r =
      ap pairs (balanced-flat l i k v r) ∙ pairs-append (flat l) ((i, k, v) ∷ flat r)

  -- the entries of a node with a child of other entries
  pub length-content :
      (l : Tree K V) (i : ℕ) (k : K) (v : V) (h : ℕ) (r : Tree K V)
      → length (content (node l i k v h r)) ≡ length (content l) + suc (length (content r))
  length-content l i k v h r =
      ap length (content-node l i k v h r) ∙ length-append (content l) ((k, v) ∷ content r)

  -- The stored height of a tree is at most the number of its entries.
  pub stored-content : (t : Tree K V) → IsAvl t → stored t ≤ length (content t)
  unfolding IsAvl content flat
  stored-content leaf a = omega arith
  stored-content (node l i k v h r) a =
      subst (λ n. h ≤ n) (sym (length-content l i k v h r))
        (longer (stored l) (stored r) h _ _ a.2 (stored-content l a.0) (stored-content r a.1))

module _ {K V : Type 0} (cmp : K → K → Ordering) where
  pub length-insert_tree :
      (s : ℕ) (key : K) (val : V) (t : Tree K V)
      → length (content (insert_tree cmp s key val t))
        ≡ length (content t) + (if has_key cmp key t then 0 else 1)
  unfolding insert_tree has_key content flat
  length-insert_tree s key val leaf = refl
  length-insert_tree s key val (node l i k v h r) = elim (Ordering-cases (cmp key k)) [
    | inl e ↦
        rw (e, insert_tree, has_key)
          (ap length (content-balanced (insert_tree cmp s key val l) i k v r)
            ∙ length-append (content (insert_tree cmp s key val l)) ((k, v) ∷ content r)
            ∙ omega (arith, length-insert_tree s key val l, length-content l i k v h r))
    | inr (inl e) ↦
        rw (e, insert_tree, has_key)
          (ap length (content-balanced l i k v (insert_tree cmp s key val r))
            ∙ length-append (content l) ((k, v) ∷ content (insert_tree cmp s key val r))
            ∙ omega (arith, length-insert_tree s key val r, length-content l i k v h r))
    | inr (inr e) ↦
        rw (e, insert_tree, has_key)
          (omega (arith, length-content l i k val h r, length-content l i k v h r))
  ]

  module _ (o : IsOrder cmp) where
    -- The entries of the tree after an insertion are the sorted list with the key set.
    pub insert_tree-insert :
        (s : ℕ) (key : K) (val : V) (t : Tree K V)
        → Sorted cmp (content t)
        → content (insert_tree cmp s key val t) ≡ insert cmp key val (content t)
    unfolding insert_tree insert flat content
    insert_tree-insert s key val leaf h = refl
    insert_tree-insert s key val (node l i k v g r) h = elim (Ordering-cases (cmp key k)) [
      | inl e ↦
          rw (e, insert_tree)
            (content-balanced (insert_tree cmp s key val l) i k v r
              ∙ ap (λ m. m ++ rest)
                  (insert_tree-insert s key val l (Sorted-left cmp o (content l) rest sorted))
              ∙ sym (
                  ap (insert cmp key val) cn
                  ∙ insert-before cmp key val (content l) k v (content r) e))
      | inr (inl e) ↦
          rw (e, insert_tree)
            (content-balanced l i k v (insert_tree cmp s key val r)
              ∙ ap (λ m. content l ++ (k, v) ∷ m)
                  (insert_tree-insert s key val r (Sorted-right cmp o (content l) rest sorted).1)
              ∙ sym (past_left (inl e) ∙ ap (λ m. content l ++ m) (rw (e, insert) refl)))
      | inr (inr e) ↦
          rw (e, insert_tree)
            (content-node l i k val g r
              ∙ sym (past_left (inr e) ∙ ap (λ m. content l ++ m) (rw (e, insert) refl)))
    ]
      where
        rest : List (K × V)
        rest = (k, v) ∷ content r

        cn : content (node l i k v g r) ≡ content l ++ rest
        cn = content-node l i k v g r

        sorted : Sorted cmp (content l ++ rest)
        sorted = subst (Sorted cmp) cn h

        past_left :
            (cmp key k ≡ gt) ⊎ (cmp key k ≡ eq)
            → insert cmp key val (content (node l i k v g r)) ≡ content l ++ insert cmp key val rest
        past_left f =
            ap (insert cmp key val) cn
            ∙ insert-after cmp key val (content l) rest
                (Sorted-Below cmp o key (content l) k v (content r) sorted f)

module _ {K V : Type 0} (cmp : K → K → Ordering) (o : IsOrder cmp) where
  -- the parts of a sorted tree
  module _ (key : K) (l : Tree K V) (i : ℕ) (k : K) (v : V) (h : ℕ) (r : Tree K V)
      (s : Sorted cmp (content (node l i k v h r))) where
    sorted : Sorted cmp (content l ++ (k, v) ∷ content r)
    sorted = subst (Sorted cmp) (content-node l i k v h r) s

    pub left-Sorted : Sorted cmp (content l)
    left-Sorted = Sorted-left cmp o (content l) ((k, v) ∷ content r) sorted

    pub right-Sorted : Sorted cmp (content r)
    right-Sorted = (Sorted-right cmp o (content l) ((k, v) ∷ content r) sorted).1

    pub below : (cmp key k ≡ gt) ⊎ (cmp key k ≡ eq) → Below cmp key (content l)
    below f = Sorted-Below cmp o key (content l) k v (content r) sorted f
