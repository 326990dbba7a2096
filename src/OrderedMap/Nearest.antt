-- ===== src/OrderedMap/Nearest.antt =====
-- `floor` and `ceiling` of src/OrderedMap.ts on arrays that hold a sorted AVL tree.
use Prim.Native.Nat.{Ordering, lt, eq, gt}
use vjuga.Base.{
  ℕ, zero, suc, ◌<◌, ◌≡◌, refl, Option, none, some, List, [], ◌∷◌, ◌++◌, arith, ap, ap₂, sym, ◌∙◌,
  ◌⊎◌, inl, inr,
}
use vjuga.OrderedMap.{OrderedMap}
use vjuga.OrderedMap.Tree.{Tree, leaf, node, stored, flat, IsAvl}
use vjuga.OrderedMap.TreeInsert.{Ordering-cases}
use vjuga.OrderedMap.Memory.{Holds}
use vjuga.OrderedMap.Insert.{lower}
use vjuga.OrderedMap.Sorted.{IsOrder, Sorted, Below}
use vjuga.OrderedMap.Content.{content, content-node, left-Sorted, right-Sorted, below}
use vjuga.OrderedMap.Read.{entry_at, entry_of, floor_loop, ceiling_loop}

module _ {K V : Type 0} (cmp : K → K → Ordering) where
  -- the last entry up to `key`, or `best`
  unfoldable pub last_upto : K → List (K × V) → Option (K × V) → Option (K × V)
  last_upto key [] best = best
  last_upto key ((k, v) ∷ l) best = elim (cmp key k) [
    | lt ↦ best
    | gt ↦ last_upto key l (some (k, v))
    | eq ↦ some (k, v)
  ]

  -- the first entry from `key` on, or `best`
  unfoldable pub first_from : K → List (K × V) → Option (K × V) → Option (K × V)
  first_from key [] best = best
  first_from key ((k, v) ∷ l) best = elim (cmp key k) [
    | lt ↦ some (k, v)
    | gt ↦ first_from key l best
    | eq ↦ some (k, v)
  ]

  upto-before :
      (key : K) (xs : List (K × V)) (k : K) (v : V) (ys : List (K × V)) (best : Option (K × V))
      → cmp key k ≡ lt
      → last_upto key (xs ++ (k, v) ∷ ys) best ≡ last_upto key xs best
  unfolding last_upto
  upto-before key [] k v ys best e = rw (e, last_upto) refl
  upto-before key ((j, w) ∷ xs) k v ys best e = elim (Ordering-cases (cmp key j)) [
    | inl f ↦ rw (f, last_upto) refl
    | inr (inl f) ↦ rw (f, last_upto) (upto-before key xs k v ys (some (j, w)) e)
    | inr (inr f) ↦ rw (f, last_upto) refl
  ]

  upto-after :
      (key : K) (xs : List (K × V)) (k : K) (v : V) (ys : List (K × V)) (best : Option (K × V))
      → Below cmp key xs
      → (cmp key k ≡ gt) ⊎ (cmp key k ≡ eq)
      → last_upto key (xs ++ (k, v) ∷ ys) best ≡ last_upto key ((k, v) ∷ ys) none
  unfolding last_upto
  upto-after key [] k v ys best b (inl e) = rw (e, last_upto) refl
  upto-after key [] k v ys best b (inr e) = rw (e, last_upto) refl
  upto-after key ((j, w) ∷ xs) k v ys best b e =
      rw (b.0, last_upto) (upto-after key xs k v ys (some (j, w)) b.1 e)

  from-before :
      (key : K) (xs : List (K × V)) (k : K) (v : V) (ys : List (K × V)) (best : Option (K × V))
      → cmp key k ≡ lt
      → first_from key (xs ++ (k, v) ∷ ys) best ≡ first_from key xs (some (k, v))
  unfolding first_from
  from-before key [] k v ys best e = rw (e, first_from) refl
  from-before key ((j, w) ∷ xs) k v ys best e = elim (Ordering-cases (cmp key j)) [
    | inl f ↦ rw (f, first_from) refl
    | inr (inl f) ↦ rw (f, first_from) (from-before key xs k v ys best e)
    | inr (inr f) ↦ rw (f, first_from) refl
  ]

  from-after :
      (key : K) (xs ys : List (K × V)) (best : Option (K × V))
      → Below cmp key xs
      → first_from key (xs ++ ys) best ≡ first_from key ys best
  unfolding first_from
  from-after key [] ys best b = refl
  from-after key ((j, w) ∷ xs) ys best b = rw (b.0, first_from) (from-after key xs ys best b.1)

  module _ (o : IsOrder cmp) where
    pub floor_loop-upto :
        (fuel : ℕ) (m : OrderedMap K V) (key : K) (t : Tree K V) (n best : Option ℕ)
        → IsAvl t
        → stored t < fuel
        → Sorted cmp (content t)
        → Holds m t n
        → floor_loop cmp fuel m key n best ≡ last_upto key (content t) (entry_of m best)
    unfolding floor_loop last_upto Holds IsAvl content flat
    floor_loop-upto zero m key t n best a f s at = absurd (omega (arith, f))
    floor_loop-upto (suc fuel) m key leaf n best a f s at = rw at refl
    floor_loop-upto (suc fuel) m key (node l i k v h r) n best a f s at =
        rw at.0 (elim (Ordering-cases (cmp key k)) [
          | inl e ↦
              rw (key_at e, floor_loop)
                (floor_loop-upto fuel m key l (m.left i) best a.0 low.0
                    (left-Sorted cmp o key l i k v h r s) at.2
                  ∙ sym (
                      cn (entry_of m best)
                      ∙ upto-before key (content l) k v (content r) (entry_of m best) e))
          | inr (inl e) ↦
              rw (key_at e, floor_loop)
                (floor_loop-upto fuel m key r (m.right i) (some i) a.1 low.1
                    (right-Sorted cmp o key l i k v h r s) at.3
                  ∙ ap (λ p. last_upto key (content r) (some p)) cell
                  ∙ sym (
                      cn (entry_of m best)
                      ∙ upto-after key (content l) k v (content r) (entry_of m best)
                          (below cmp o key l i k v h r s (inl e)) (inl e)
                      ∙ rw (e, last_upto) refl))
          | inr (inr e) ↦
              rw (key_at e, floor_loop)
                (ap some cell
                  ∙ sym (
                      cn (entry_of m best)
                      ∙ upto-after key (content l) k v (content r) (entry_of m best)
                          (below cmp o key l i k v h r s (inr e)) (inr e)
                      ∙ rw (e, last_upto) refl))
        ])
      where
        key_at : {o : Ordering} → cmp key k ≡ o → cmp key (m.keys i) ≡ o
        key_at e = ap (cmp key) at.1.0 ∙ e

        low : (stored l < fuel) × (stored r < fuel)
        low = lower (stored l) (stored r) h fuel a.2 f

        cell : entry_at m i ≡ (k, v)
        cell = ap₂ (λ x y. (x, y)) at.1.0 at.1.1

        cn :
            (b : Option (K × V))
            → last_upto key (content (node l i k v h r)) b
              ≡ last_upto key (content l ++ (k, v) ∷ content r) b
        cn b = ap (λ z. last_upto key z b) (content-node l i k v h r)

    pub ceiling_loop-from :
        (fuel : ℕ) (m : OrderedMap K V) (key : K) (t : Tree K V) (n best : Option ℕ)
        → IsAvl t
        → stored t < fuel
        → Sorted cmp (content t)
        → Holds m t n
        → ceiling_loop cmp fuel m key n best ≡ first_from key (content t) (entry_of m best)
    unfolding ceiling_loop first_from Holds IsAvl content flat
    ceiling_loop-from zero m key t n best a f s at = absurd (omega (arith, f))
    ceiling_loop-from (suc fuel) m key leaf n best a f s at = rw at refl
    ceiling_loop-from (suc fuel) m key (node l i k v h r) n best a f s at =
        rw at.0 (elim (Ordering-cases (cmp key k)) [
          | inl e ↦
              rw (key_at e, ceiling_loop)
                (ceiling_loop-from fuel m key l (m.left i) (some i) a.0 low.0
                    (left-Sorted cmp o key l i k v h r s) at.2
                  ∙ ap (λ p. first_from key (content l) (some p)) cell
                  ∙ sym (
                      cn (entry_of m best)
                      ∙ from-before key (content l) k v (content r) (entry_of m best) e))
          | inr (inl e) ↦
              rw (key_at e, ceiling_loop)
                (ceiling_loop-from fuel m key r (m.right i) best a.1 low.1
                    (right-Sorted cmp o key l i k v h r s) at.3
                  ∙ sym (past_left (inl e) ∙ rw (e, first_from) refl))
          | inr (inr e) ↦
              rw (key_at e, ceiling_loop)
                (ap some cell ∙ sym (past_left (inr e) ∙ rw (e, first_from) refl))
        ])
      where
        key_at : {o : Ordering} → cmp key k ≡ o → cmp key (m.keys i) ≡ o
        key_at e = ap (cmp key) at.1.0 ∙ e

        low : (stored l < fuel) × (stored r < fuel)
        low = lower (stored l) (stored r) h fuel a.2 f

        cell : entry_at m i ≡ (k, v)
        cell = ap₂ (λ x y. (x, y)) at.1.0 at.1.1

        cn :
            (b : Option (K × V))
            → first_from key (content (node l i k v h r)) b
              ≡ first_from key (content l ++ (k, v) ∷ content r) b
        cn b = ap (λ z. first_from key z b) (content-node l i k v h r)

        past_left :
            (cmp key k ≡ gt) ⊎ (cmp key k ≡ eq)
            → first_from key (content (node l i k v h r)) (entry_of m best)
              ≡ first_from key ((k, v) ∷ content r) (entry_of m best)
        past_left g =
            cn (entry_of m best)
            ∙ from-after key (content l) ((k, v) ∷ content r) (entry_of m best)
                (below cmp o key l i k v h r s g)
