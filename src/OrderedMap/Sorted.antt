-- ===== src/OrderedMap/Sorted.antt =====
-- Sorted lists of keys and values: what the tree of src/OrderedMap.ts stands for.
use Prim.Native.Nat.{Ordering, lt, eq, gt}
use vjuga.Base.{◌≡◌, refl, Option, none, some, List, [], ◌∷◌, ◌++◌, ap, ◌∙◌, ◌⊎◌, inl, inr}
use vjuga.OrderedMap.TreeInsert.{Ordering-cases}

abbrev pub flip : Ordering → Ordering
flip lt = gt
flip eq = eq
flip gt = lt

-- The comparator is a total order of the keys, up to keys that compare equal.
pub record IsOrder {K : Type 0} (cmp : K → K → Ordering) : Type 0 where
  pub flipped : (a b : K) → cmp b a ≡ flip (cmp a b)
  pub below : (a b c : K) → cmp a b ≡ lt → cmp b c ≡ lt → cmp a c ≡ lt
  pub alike : (a b c : K) → cmp a b ≡ eq → cmp a c ≡ cmp b c

module _ {K : Type 0} (cmp : K → K → Ordering) (o : IsOrder cmp) where
  pub turned : (a b : K) (s : Ordering) → cmp a b ≡ s → cmp b a ≡ flip s
  turned a b s e = o.flipped a b ∙ ap flip e

  -- A key that is not below the middle of a sorted list is above all that comes before.
  past : (key x k : K) → cmp x k ≡ lt → (cmp key k ≡ gt) ⊎ (cmp key k ≡ eq) → cmp key x ≡ gt
  past key x k e (inl f) = turned x key lt (o.below x k key e (turned key k gt f))
  past key x k e (inr f) = o.alike key k x f ∙ turned x k lt e

module _ {K V : Type 0} (cmp : K → K → Ordering) where
  -- every key of the list is above `a`
  abbrev pub Above : K → List (K × V) → Type 0
  Above a [] = Unit
  Above a (p ∷ l) = (cmp a p.0 ≡ lt) × Above a l

  abbrev pub Sorted : List (K × V) → Type 0
  Sorted [] = Unit
  Sorted (p ∷ l) = Above p.0 l × Sorted l

  -- a sorted list with the value of `key` set; a key that is there stays as it is
  unfoldable pub insert : K → V → List (K × V) → List (K × V)
  insert key val [] = (key, val) ∷ []
  insert key val ((k, v) ∷ l) = elim (cmp key k) [
    | lt ↦ (key, val) ∷ (k, v) ∷ l
    | gt ↦ (k, v) ∷ insert key val l
    | eq ↦ (k, val) ∷ l
  ]

  unfoldable pub lookup : K → List (K × V) → Option V
  lookup key [] = none
  lookup key ((k, v) ∷ l) = elim (cmp key k) [ lt ↦ none | gt ↦ lookup key l | eq ↦ some v ]

  -- every key of the list is below `key`
  abbrev pub Below : K → List (K × V) → Type 0
  Below key [] = Unit
  Below key (p ∷ l) = (cmp key p.0 ≡ gt) × Below key l

  pub insert-before :
      (key : K) (val : V) (xs : List (K × V)) (k : K) (v : V) (ys : List (K × V))
      → cmp key k ≡ lt
      → insert key val (xs ++ (k, v) ∷ ys) ≡ insert key val xs ++ (k, v) ∷ ys
  unfolding insert
  insert-before key val [] k v ys e = rw (e, insert) refl
  insert-before key val ((j, w) ∷ xs) k v ys e = elim (Ordering-cases (cmp key j)) [
    | inl f ↦ rw (f, insert) refl
    | inr (inl f) ↦ rw (f, insert) (ap (λ l. (j, w) ∷ l) (insert-before key val xs k v ys e))
    | inr (inr f) ↦ rw (f, insert) refl
  ]

  pub insert-after :
      (key : K) (val : V) (xs ys : List (K × V))
      → Below key xs
      → insert key val (xs ++ ys) ≡ xs ++ insert key val ys
  unfolding insert
  insert-after key val [] ys b = refl
  insert-after key val ((j, w) ∷ xs) ys b =
      rw (b.0, insert) (ap (λ l. (j, w) ∷ l) (insert-after key val xs ys b.1))

  pub lookup-before :
      (key : K) (xs : List (K × V)) (k : K) (v : V) (ys : List (K × V))
      → cmp key k ≡ lt
      → lookup key (xs ++ (k, v) ∷ ys) ≡ lookup key xs
  unfolding lookup
  lookup-before key [] k v ys e = rw (e, lookup) refl
  lookup-before key ((j, w) ∷ xs) k v ys e = elim (Ordering-cases (cmp key j)) [
    | inl f ↦ rw (f, lookup) refl
    | inr (inl f) ↦ rw (f, lookup) (lookup-before key xs k v ys e)
    | inr (inr f) ↦ rw (f, lookup) refl
  ]

  pub lookup-after :
      (key : K) (xs ys : List (K × V)) → Below key xs → lookup key (xs ++ ys) ≡ lookup key ys
  unfolding lookup
  lookup-after key [] ys b = refl
  lookup-after key ((j, w) ∷ xs) ys b = rw (b.0, lookup) (lookup-after key xs ys b.1)

  module _ (o : IsOrder cmp) where
    pub Above-lower : (a b : K) (l : List (K × V)) → cmp a b ≡ lt → Above b l → Above a l
    Above-lower a b [] e h = tt
    Above-lower a b (p ∷ l) e h = (o.below a b p.0 e h.0, Above-lower a b l e h.1)

    Above-insert :
        (a key : K) (val : V) (l : List (K × V))
        → cmp a key ≡ lt
        → Above a l
        → Above a (insert key val l)
    unfolding insert
    Above-insert a key val [] e h = (e, tt)
    Above-insert a key val ((k, v) ∷ l) e h = elim (Ordering-cases (cmp key k)) [
      | inl f ↦ rw (f, insert) (e, h)
      | inr (inl f) ↦ rw (f, insert) (h.0, Above-insert a key val l e h.1)
      | inr (inr f) ↦ rw (f, insert) h
    ]

    -- Setting a key keeps the list sorted.
    pub insert-Sorted :
        (key : K) (val : V) (l : List (K × V)) → Sorted l → Sorted (insert key val l)
    unfolding insert
    insert-Sorted key val [] s = (tt, tt)
    insert-Sorted key val ((k, v) ∷ l) s = elim (Ordering-cases (cmp key k)) [
      | inl f ↦ rw (f, insert) ((f, Above-lower key k l f s.0), s)
      | inr (inl f) ↦
          rw (f, insert)
            (Above-insert k key val l (turned cmp o key k gt f) s.0, insert-Sorted key val l s.1)
      | inr (inr f) ↦ rw (f, insert) s
    ]

    pub Above-middle :
        (a : K) (xs : List (K × V)) (k : K) (v : V) (ys : List (K × V))
        → Above a (xs ++ (k, v) ∷ ys)
        → cmp a k ≡ lt
    Above-middle a [] k v ys h = h.0
    Above-middle a (x ∷ xs) k v ys h = Above-middle a xs k v ys h.1

    pub Sorted-Below :
        (key : K) (xs : List (K × V)) (k : K) (v : V) (ys : List (K × V))
        → Sorted (xs ++ (k, v) ∷ ys)
        → (cmp key k ≡ gt) ⊎ (cmp key k ≡ eq)
        → Below key xs
    Sorted-Below key [] k v ys s f = tt
    Sorted-Below key (x ∷ xs) k v ys s f =
        (past cmp o key x.0 k (Above-middle x.0 xs k v ys s.0) f, Sorted-Below key xs k v ys s.1 f)

    Above-left : (a : K) (xs : List (K × V)) (ys : List (K × V)) → Above a (xs ++ ys) → Above a xs
    Above-left a [] ys h = tt
    Above-left a (x ∷ xs) ys h = (h.0, Above-left a xs ys h.1)

    pub Sorted-left : (xs ys : List (K × V)) → Sorted (xs ++ ys) → Sorted xs
    Sorted-left [] ys s = tt
    Sorted-left (x ∷ xs) ys s = (Above-left x.0 xs ys s.0, Sorted-left xs ys s.1)

    pub Sorted-right : (xs ys : List (K × V)) → Sorted (xs ++ ys) → Sorted ys
    Sorted-right [] ys s = s
    Sorted-right (x ∷ xs) ys s = Sorted-right xs ys s.1
