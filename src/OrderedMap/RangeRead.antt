-- ===== src/OrderedMap/RangeRead.antt =====
-- `range` of src/OrderedMap.ts on arrays that hold a sorted AVL tree.
use Prim.Native.Nat.{Ordering, lt, eq, gt}
use vjuga.Base.{
  ℕ, zero, suc, ◌+◌, ◌≤◌, ◌<◌, ◌≡◌, refl, Option, List, [], ◌∷◌, ◌++◌, arith, ap, ap₂, sym, ◌∙◌,
  subst, length, ◌⊎◌, inl, inr,
}
use mathlib.Core.List.{append_assoc, append-nil}
use vjuga.OrderedMap.{OrderedMap}
use vjuga.OrderedMap.Tree.{Tree, leaf, node, stored, flat, IsAvl}
use vjuga.OrderedMap.TreeInsert.{Ordering-cases}
use vjuga.OrderedMap.Memory.{Holds}
use vjuga.OrderedMap.Insert.{lower}
use vjuga.OrderedMap.Sorted.{IsOrder, Sorted, Above-middle}
use vjuga.OrderedMap.Content.{content, content-node, left-Sorted, right-Sorted}
use vjuga.OrderedMap.Valid.{IsValid, enough}
use vjuga.OrderedMap.Read.{entry_at}
use vjuga.OrderedMap.Walk.{push_left, push_from, pop_range, range}
use vjuga.OrderedMap.Traverse.{Pending, todo, spine, todo-spine, Stacked, push_left-Stacked, within}

module _ {K V : Type 0} (cmp : K → K → Ordering) where
  -- a sorted list without the keys below `lo`
  unfoldable pub from_lo : K → List (K × V) → List (K × V)
  from_lo lo [] = []
  from_lo lo ((k, v) ∷ l) = elim (cmp k lo) [
    | lt ↦ from_lo lo l
    | gt ↦ (k, v) ∷ l
    | eq ↦ (k, v) ∷ l
  ]

  -- a sorted list without the keys above `hi`
  unfoldable pub up_to : K → List (K × V) → List (K × V)
  up_to hi [] = []
  up_to hi ((k, v) ∷ l) = elim (cmp k hi) [
    | lt ↦ (k, v) ∷ up_to hi l
    | gt ↦ []
    | eq ↦ (k, v) ∷ up_to hi l
  ]

  length-from_lo : (lo : K) (l : List (K × V)) → length (from_lo lo l) ≤ length l
  unfolding from_lo
  length-from_lo lo [] = omega arith
  length-from_lo lo ((k, v) ∷ l) = elim (Ordering-cases (cmp k lo)) [
    | inl e ↦ rw (e, from_lo) (omega (arith, length-from_lo lo l))
    | inr (inl e) ↦ rw (e, from_lo) (omega arith)
    | inr (inr e) ↦ rw (e, from_lo) (omega arith)
  ]

  from-lower :
      (lo : K) (xs : List (K × V)) (k : K) (v : V) (ys : List (K × V))
      → IsOrder cmp
      → Sorted cmp (xs ++ (k, v) ∷ ys)
      → cmp k lo ≡ lt
      → from_lo lo (xs ++ (k, v) ∷ ys) ≡ from_lo lo ys
  unfolding from_lo
  from-lower lo [] k v ys o s e = rw (e, from_lo) refl
  from-lower lo ((j, w) ∷ xs) k v ys o s e =
      rw (o.below j k lo (Above-middle cmp o j xs k v ys s.0) e, from_lo)
        (from-lower lo xs k v ys o s.1 e)

  from-upper :
      (lo : K) (xs : List (K × V)) (k : K) (v : V) (ys : List (K × V))
      → (cmp k lo ≡ gt) ⊎ (cmp k lo ≡ eq)
      → from_lo lo (xs ++ (k, v) ∷ ys) ≡ from_lo lo xs ++ (k, v) ∷ ys
  unfolding from_lo
  from-upper lo [] k v ys (inl e) = rw (e, from_lo) refl
  from-upper lo [] k v ys (inr e) = rw (e, from_lo) refl
  from-upper lo ((j, w) ∷ xs) k v ys e = elim (Ordering-cases (cmp j lo)) [
    | inl f ↦ rw (f, from_lo) (from-upper lo xs k v ys e)
    | inr (inl f) ↦ rw (f, from_lo) refl
    | inr (inr f) ↦ rw (f, from_lo) refl
  ]

  -- the path to the first key from `lo` on, on the stack
  unfoldable pub spine_from : K → Tree K V → List (Pending K V) → List (Pending K V)
  spine_from lo leaf ps = ps
  spine_from lo (node l i k v h r) ps = elim (cmp k lo) [
    | lt ↦ spine_from lo r ps
    | gt ↦ spine_from lo l ((i, k, v, r) ∷ ps)
    | eq ↦ spine_from lo l ((i, k, v, r) ∷ ps)
  ]

  todo-spine_from :
      (lo : K) (t : Tree K V) (ps : List (Pending K V))
      → IsOrder cmp
      → Sorted cmp (content t)
      → todo (spine_from lo t ps) ≡ from_lo lo (content t) ++ todo ps
  unfolding spine_from
  todo-spine_from lo leaf ps o s = unfold content flat from_lo in refl
  todo-spine_from lo (node l i k v h r) ps o s = elim (Ordering-cases (cmp k lo)) [
    | inl e ↦
        rw (e, spine_from)
          (todo-spine_from lo r ps o (right-Sorted cmp o lo l i k v h r s)
            ∙ ap (λ z. z ++ todo ps)
                (sym (
                  ap (from_lo lo) cn
                  ∙ from-lower lo (content l) k v (content r) o (subst (Sorted cmp) cn s) e)))
    | inr (inl e) ↦
        rw (e, spine_from) (todo-spine_from lo l ((i, k, v, r) ∷ ps) o left ∙ after (inl e))
    | inr (inr e) ↦
        rw (e, spine_from) (todo-spine_from lo l ((i, k, v, r) ∷ ps) o left ∙ after (inr e))
  ]
    where
      left : Sorted cmp (content l)
      left = left-Sorted cmp o lo l i k v h r s

      cn : content (node l i k v h r) ≡ content l ++ (k, v) ∷ content r
      cn = content-node l i k v h r

      after :
          (cmp k lo ≡ gt) ⊎ (cmp k lo ≡ eq)
          → from_lo lo (content l) ++ todo ((i, k, v, r) ∷ ps)
            ≡ from_lo lo (content (node l i k v h r)) ++ todo ps
      after e =
          unfold todo in
          sym (append_assoc (from_lo lo (content l)) ((k, v) ∷ content r) (todo ps))
          ∙ ap (λ z. z ++ todo ps)
              (sym (ap (from_lo lo) cn ∙ from-upper lo (content l) k v (content r) e))

  module _ (m : OrderedMap K V) where
    push_from-Stacked :
        (fuel : ℕ) (lo : K) (t : Tree K V) (n : Option ℕ) (stack : List ℕ) (ps : List (Pending K V))
        → IsAvl t
        → stored t < fuel
        → stored t ≤ m.size
        → Holds m t n
        → Stacked m stack ps
        → Stacked m (push_from cmp m fuel lo n stack) (spine_from lo t ps)
    unfolding push_from spine_from Stacked Holds IsAvl
    push_from-Stacked zero lo t n stack ps a f b at s = absurd (omega (arith, f))
    push_from-Stacked (suc fuel) lo leaf n stack ps a f b at s = rw at s
    push_from-Stacked (suc fuel) lo (node l i k v h r) n stack ps a f b at s =
        rw at.0 (elim (Ordering-cases (cmp k lo)) [
          | inl e ↦
              rw (e, key_at e, spine_from, push_from)
                (push_from-Stacked fuel lo r (m.right i) stack ps a.1 low.1 small.1 at.3 s)
          | inr (inl e) ↦
              rw (e, key_at e, spine_from, push_from)
                (push_from-Stacked fuel lo l (m.left i) (i ∷ stack) ((i, k, v, r) ∷ ps) a.0 low.0
                  small.0 at.2 (refl, cell, at.3, a.1, small.1, s))
          | inr (inr e) ↦
              rw (e, key_at e, spine_from, push_from)
                (push_from-Stacked fuel lo l (m.left i) (i ∷ stack) ((i, k, v, r) ∷ ps) a.0 low.0
                  small.0 at.2 (refl, cell, at.3, a.1, small.1, s))
        ])
      where
        key_at : {o : Ordering} → cmp k lo ≡ o → cmp (m.keys i) lo ≡ o
        key_at e = ap (λ z. cmp z lo) at.1.0 ∙ e

        low : (stored l < fuel) × (stored r < fuel)
        low = lower (stored l) (stored r) h fuel a.2 f

        small : (stored l ≤ m.size) × (stored r ≤ m.size)
        small = within (stored l) (stored r) h m.size a.2 b

        cell : entry_at m i ≡ (k, v)
        cell = ap₂ (λ x y. (x, y)) at.1.0 at.1.1

    pop_range-up_to :
        (fuel : ℕ) (hi : K) (stack : List ℕ) (ps : List (Pending K V))
        → Stacked m stack ps
        → length (todo ps) ≤ fuel
        → pop_range cmp m fuel hi stack ≡ up_to hi (todo ps)
    unfolding pop_range todo Stacked up_to
    pop_range-up_to zero hi [] [] s f = refl
    pop_range-up_to zero hi (n ∷ stack) (p ∷ ps) s f = absurd (omega (arith, f))
    pop_range-up_to (suc fuel) hi [] [] s f = refl
    pop_range-up_to zero hi [] (p ∷ ps) s f = absurd s
    pop_range-up_to (suc fuel) hi [] (p ∷ ps) s f = absurd s
    pop_range-up_to zero hi (n ∷ stack) [] s f = absurd s
    pop_range-up_to (suc fuel) hi (n ∷ stack) [] s f = absurd s
    pop_range-up_to (suc fuel) hi (n ∷ stack) ((i, k, v, r) ∷ ps) s f =
        let next =
          pop_range-up_to fuel hi (push_left m (m.size + 1) (m.right n) stack) (spine r ps)
            (push_left-Stacked m (m.size + 1) r (m.right n) stack ps s.3 (omega (arith, s.4)) s.4
              s.2 s.5)
            (subst (λ l. length l ≤ fuel) (sym (todo-spine r ps)) (omega (arith, f)))
          ∙ ap (up_to hi) (todo-spine r ps) in
        elim (Ordering-cases (cmp k hi)) [
          | inl e ↦ rw (e, key_at e, pop_range, up_to) (ap₂ (λ z rest. z ∷ rest) s.1 next)
          | inr (inl e) ↦ rw (e, key_at e, pop_range, up_to) refl
          | inr (inr e) ↦ rw (e, key_at e, pop_range, up_to) (ap₂ (λ z rest. z ∷ rest) s.1 next)
        ]
      where
        key_at : {o : Ordering} → cmp k hi ≡ o → cmp (m.keys n) hi ≡ o
        key_at e = ap (λ z. cmp z.0 hi) s.1 ∙ e

    -- `range` yields the entries from `lo` to `hi`.
    pub range-content :
        (lo hi : K) (t : Tree K V)
        → IsOrder cmp
        → Sorted cmp (content t)
        → IsValid m t
        → range cmp m lo hi ≡ up_to hi (from_lo lo (content t))
    unfolding range Stacked
    range-content lo hi t o s v =
        pop_range-up_to m.size hi (push_from cmp m (m.size + 1) lo m.root []) (spine_from lo t [])
          (push_from-Stacked (m.size + 1) lo t m.root [] [] v.avl (enough m t v)
            (omega (arith, enough m t v)) v.holds tt)
          (subst (λ l. length l ≤ m.size) (sym all)
            (omega (arith, length-from_lo lo (content t), v.counted)))
        ∙ ap (up_to hi) all
      where
        all : todo (spine_from lo t []) ≡ from_lo lo (content t)
        all = todo-spine_from lo t [] o s ∙ unfold todo in append-nil (from_lo lo (content t))
