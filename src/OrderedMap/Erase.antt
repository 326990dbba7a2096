-- ===== src/OrderedMap/Erase.antt =====
-- A key taken out of a sorted list, and out of a tree of src/OrderedMap.ts.
use Prim.Native.Nat.{Ordering, lt, eq, gt}
use vjuga.Base.{
  ◌+◌, ◌≡◌, refl, true, false, some, List, [], ◌∷◌, ◌++◌, arith, ap, sym, ◌∙◌, ◌⊎◌, inl, inr,
  length, length-append,
}
use vjuga.OrderedMap.Tree.{Tree, leaf, node, flat}
use vjuga.OrderedMap.TreeInsert.{Ordering-cases, has_key}
use vjuga.OrderedMap.TreeDelete.{fused, fused-flat, delete_tree, has_key_left, has_key_right}
use vjuga.OrderedMap.Sorted.{IsOrder, Above, Below, Sorted, lookup, lookup-before, lookup-after}
use vjuga.OrderedMap.Content.{
  left-Sorted, right-Sorted, below, content, content-node, content-balanced, length-content, pairs,
  pairs-append,
}
use vjuga.OrderedMap.Lookup.{is_some}

module _ {K V : Type 0} where
  fused-content : (l r : Tree K V) → content (fused l r) ≡ content l ++ content r
  unfolding content
  fused-content l r = ap pairs (fused-flat l r) ∙ pairs-append (flat l) (flat r)

module _ {K V : Type 0} (cmp : K → K → Ordering) where
  unfoldable pub erase : K → List (K × V) → List (K × V)
  erase key [] = []
  erase key ((k, v) ∷ l) = elim (cmp key k) [ lt ↦ (k, v) ∷ l | gt ↦ (k, v) ∷ erase key l | eq ↦ l ]

  erase-before :
      (key : K) (xs : List (K × V)) (k : K) (v : V) (ys : List (K × V))
      → cmp key k ≡ lt
      → erase key (xs ++ (k, v) ∷ ys) ≡ erase key xs ++ (k, v) ∷ ys
  unfolding erase
  erase-before key [] k v ys e = rw (e, erase) refl
  erase-before key ((j, w) ∷ xs) k v ys e = elim (Ordering-cases (cmp key j)) [
    | inl f ↦ rw (f, erase) refl
    | inr (inl f) ↦ rw (f, erase) (ap (λ l. (j, w) ∷ l) (erase-before key xs k v ys e))
    | inr (inr f) ↦ rw (f, erase) refl
  ]

  erase-after :
      (key : K) (xs ys : List (K × V))
      → Below cmp key xs
      → erase key (xs ++ ys) ≡ xs ++ erase key ys
  unfolding erase
  erase-after key [] ys b = refl
  erase-after key ((j, w) ∷ xs) ys b =
      rw (b.0, erase) (ap (λ l. (j, w) ∷ l) (erase-after key xs ys b.1))

  pub erase-absent :
      (key : K) (l : List (K × V)) → is_some (lookup cmp key l) ≡ false → erase key l ≡ l
  unfolding erase lookup
  erase-absent key [] h = refl
  erase-absent key ((k, v) ∷ l) h = elim (Ordering-cases (cmp key k)) [
    | inl e ↦ rw (e, erase) refl
    | inr (inl e) ↦
        rw (e, erase) (ap (λ m. (k, v) ∷ m) (erase-absent key l (sym (ap is_some (above e)) ∙ h)))
    | inr (inr e) ↦ absurd (ground (arith, sym (ap is_some (here e)) ∙ h))
  ]
    where
      above : cmp key k ≡ gt → lookup cmp key ((k, v) ∷ l) ≡ lookup cmp key l
      above e = rw (e, lookup) refl

      here : cmp key k ≡ eq → lookup cmp key ((k, v) ∷ l) ≡ some v
      here e = rw (e, lookup) refl

  Above-erase : (a key : K) (l : List (K × V)) → Above cmp a l → Above cmp a (erase key l)
  unfolding erase
  Above-erase a key [] h = tt
  Above-erase a key ((k, v) ∷ l) h = elim (Ordering-cases (cmp key k)) [
    | inl e ↦ rw (e, erase) h
    | inr (inl e) ↦ rw (e, erase) (h.0, Above-erase a key l h.1)
    | inr (inr e) ↦ rw (e, erase) h.1
  ]

  pub erase-Sorted : (key : K) (l : List (K × V)) → Sorted cmp l → Sorted cmp (erase key l)
  unfolding erase
  erase-Sorted key [] s = tt
  erase-Sorted key ((k, v) ∷ l) s = elim (Ordering-cases (cmp key k)) [
    | inl e ↦ rw (e, erase) s
    | inr (inl e) ↦ rw (e, erase) (Above-erase k key l s.0, erase-Sorted key l s.1)
    | inr (inr e) ↦ rw (e, erase) s.1
  ]

  pub length-delete_tree :
      (key : K) (t : Tree K V)
      → has_key cmp key t ≡ true
      → length (content (delete_tree cmp key t)) + 1 ≡ length (content t)
  unfolding delete_tree has_key
  length-delete_tree key leaf p = absurd (ground (arith, p))
  length-delete_tree key (node l i k v h r) p = elim (Ordering-cases (cmp key k)) [
    | inl e ↦
        rw (e, delete_tree)
          (ap (λ n. n + 1)
              (ap length (content-balanced (delete_tree cmp key l) i k v r)
                ∙ length-append (content (delete_tree cmp key l)) ((k, v) ∷ content r))
            ∙ omega (
              arith,
              length-content l i k v h r,
              length-delete_tree key l (sym (has_key_left cmp key l i k v h r e) ∙ p),
            ))
    | inr (inl e) ↦
        rw (e, delete_tree)
          (ap (λ n. n + 1)
              (ap length (content-balanced l i k v (delete_tree cmp key r))
                ∙ length-append (content l) ((k, v) ∷ content (delete_tree cmp key r)))
            ∙ omega (
              arith,
              length-content l i k v h r,
              length-delete_tree key r (sym (has_key_right cmp key l i k v h r e) ∙ p),
            ))
    | inr (inr e) ↦
        rw (e, delete_tree)
          (ap (λ n. n + 1) (ap length (fused-content l r) ∙ length-append (content l) (content r))
            ∙ omega (arith, length-content l i k v h r))
  ]

  module _ (o : IsOrder cmp) where
    -- The entries of the tree after a deletion are the sorted list without the key.
    pub delete_tree-erase :
        (key : K) (t : Tree K V)
        → Sorted cmp (content t)
        → content (delete_tree cmp key t) ≡ erase key (content t)
    unfolding delete_tree erase flat content
    delete_tree-erase key leaf s = refl
    delete_tree-erase key (node l i k v h r) s = elim (Ordering-cases (cmp key k)) [
      | inl e ↦
          rw (e, delete_tree)
            (content-balanced (delete_tree cmp key l) i k v r
              ∙ ap (λ m. m ++ (k, v) ∷ content r)
                  (delete_tree-erase key l (left-Sorted cmp o key l i k v h r s))
              ∙ sym (
                  ap (erase key) (content-node l i k v h r)
                  ∙ erase-before key (content l) k v (content r) e))
      | inr (inl e) ↦
          rw (e, delete_tree)
            (content-balanced l i k v (delete_tree cmp key r)
              ∙ ap (λ m. content l ++ (k, v) ∷ m)
                  (delete_tree-erase key r (right-Sorted cmp o key l i k v h r s))
              ∙ sym (past_left (inl e) ∙ ap (λ m. content l ++ m) (rw (e, erase) refl)))
      | inr (inr e) ↦
          rw (e, delete_tree)
            (fused-content l r
              ∙ sym (past_left (inr e) ∙ ap (λ m. content l ++ m) (rw (e, erase) refl)))
    ]
      where
        past_left :
            (cmp key k ≡ gt) ⊎ (cmp key k ≡ eq)
            → erase key (content (node l i k v h r)) ≡ content l ++ erase key ((k, v) ∷ content r)
        past_left f =
            ap (erase key) (content-node l i k v h r)
            ∙ erase-after key (content l) ((k, v) ∷ content r) (below cmp o key l i k v h r s f)

    pub has_key-lookup :
        (key : K) (t : Tree K V)
        → Sorted cmp (content t)
        → has_key cmp key t ≡ is_some (lookup cmp key (content t))
    unfolding has_key lookup flat content
    has_key-lookup key leaf s = refl
    has_key-lookup key (node l i k v h r) s = elim (Ordering-cases (cmp key k)) [
      | inl e ↦
          rw (e, has_key)
            (has_key-lookup key l (left-Sorted cmp o key l i k v h r s)
              ∙ sym (
                  ap is_some (
                    ap (lookup cmp key) (content-node l i k v h r)
                    ∙ lookup-before cmp key (content l) k v (content r) e)))
      | inr (inl e) ↦
          rw (e, has_key)
            (has_key-lookup key r (right-Sorted cmp o key l i k v h r s)
              ∙ sym (ap is_some (past_left (inl e) ∙ rw (e, lookup) refl)))
      | inr (inr e) ↦ rw (e, has_key) (sym (ap is_some (past_left (inr e) ∙ found e)))
    ]
      where
        past_left :
            (cmp key k ≡ gt) ⊎ (cmp key k ≡ eq)
            → lookup cmp key (content (node l i k v h r)) ≡ lookup cmp key ((k, v) ∷ content r)
        past_left f =
            ap (lookup cmp key) (content-node l i k v h r)
            ∙ lookup-after cmp key (content l) ((k, v) ∷ content r)
                (below cmp o key l i k v h r s f)

        found : cmp key k ≡ eq → lookup cmp key ((k, v) ∷ content r) ≡ some v
        found e = rw (e, lookup) refl
