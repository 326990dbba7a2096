-- ===== src/OrderedMap/Lookup.antt =====
-- The lookups of src/OrderedMap.ts on arrays that hold a sorted AVL tree.
use Prim.Native.Nat.{Ordering, eq, gt}
use vjuga.Base.{
  ℕ, zero, suc, ◌+◌, ◌<◌, ◌≡◌, refl, Bool, true, false, Option, none, some, List, ◌∷◌, ◌++◌, arith,
  ap, sym, ◌∙◌, ◌⊎◌, inl, inr, subst,
}
use vjuga.OrderedMap.{OrderedMap}
use vjuga.OrderedMap.Tree.{Tree, leaf, node, stored, flat, IsAvl}
use vjuga.OrderedMap.TreeInsert.{Ordering-cases}
use vjuga.OrderedMap.Memory.{Holds}
use vjuga.OrderedMap.Insert.{lower}
use vjuga.OrderedMap.Sorted.{
  IsOrder, Sorted, Sorted-left, Sorted-right, Sorted-Below, lookup, lookup-before, lookup-after,
}
use vjuga.OrderedMap.Content.{content, content-node}
use vjuga.OrderedMap.Read.{get_loop, get, has_loop, has}

abbrev pub is_some : {A : Type 0} → Option A → Bool
is_some none = false
is_some (some a) = true

module _ {K V : Type 0} (cmp : K → K → Ordering) where
  -- `get` down the tree finds the key of the sorted list.
  pub get_loop-lookup :
      IsOrder cmp
      → (fuel : ℕ) (m : OrderedMap K V) (key : K) (t : Tree K V) (n : Option ℕ) → IsAvl t
      → stored t < fuel
      → Sorted cmp (content t)
      → Holds m t n
      → get_loop cmp fuel m key n ≡ lookup cmp key (content t)
  unfolding get_loop lookup Holds IsAvl content flat
  get_loop-lookup o zero m key t n a f s at = absurd (omega (arith, f))
  get_loop-lookup o (suc fuel) m key leaf n a f s at = rw at refl
  get_loop-lookup o (suc fuel) m key (node l i k v h r) n a f s at =
      rw at.0 (elim (Ordering-cases (cmp key k)) [
        | inl e ↦
            rw (key_at e, get_loop)
              (get_loop-lookup o fuel m key l (m.left i) a.0 low.0
                  (Sorted-left cmp o (content l) rest sorted) at.2
                ∙ sym
                    (ap (lookup cmp key) cn ∙ lookup-before cmp key (content l) k v (content r) e))
        | inr (inl e) ↦
            rw (key_at e, get_loop)
              (get_loop-lookup o fuel m key r (m.right i) a.1 low.1
                  (Sorted-right cmp o (content l) rest sorted).1 at.3
                ∙ sym (past_left (inl e) ∙ rw (e, lookup) refl))
        | inr (inr e) ↦
            rw (key_at e, get_loop) (ap some at.1.1 ∙ sym (past_left (inr e) ∙ rw (e, lookup) refl))
      ])
    where
      key_at : {o : Ordering} → cmp key k ≡ o → cmp key (m.keys i) ≡ o
      key_at e = ap (cmp key) at.1.0 ∙ e

      low : (stored l < fuel) × (stored r < fuel)
      low = lower (stored l) (stored r) h fuel a.2 f

      rest : List (K × V)
      rest = (k, v) ∷ content r

      cn : content (node l i k v h r) ≡ content l ++ rest
      cn = content-node l i k v h r

      sorted : Sorted cmp (content l ++ rest)
      sorted = subst (Sorted cmp) cn s

      past_left :
          (cmp key k ≡ gt) ⊎ (cmp key k ≡ eq)
          → lookup cmp key (content (node l i k v h r)) ≡ lookup cmp key rest
      past_left g =
          ap (lookup cmp key) cn
          ∙ lookup-after cmp key (content l) rest
              (Sorted-Below cmp o key (content l) k v (content r) sorted g)

  has_loop-get_loop :
      (fuel : ℕ) (m : OrderedMap K V) (key : K) (n : Option ℕ)
      → has_loop cmp fuel m key n ≡ is_some (get_loop cmp fuel m key n)
  unfolding has_loop get_loop
  has_loop-get_loop zero m key n = refl
  has_loop-get_loop (suc fuel) m key none = refl
  has_loop-get_loop (suc fuel) m key (some n) = elim (Ordering-cases (cmp key (m.keys n))) [
    | inl e ↦ rw (e, has_loop, get_loop) (has_loop-get_loop fuel m key (m.left n))
    | inr (inl e) ↦ rw (e, has_loop, get_loop) (has_loop-get_loop fuel m key (m.right n))
    | inr (inr e) ↦ rw (e, has_loop, get_loop) refl
  ]

  -- `has` tells whether `get` finds a value.
  pub has-get : (m : OrderedMap K V) (key : K) → has cmp m key ≡ is_some (get cmp m key)
  unfolding has get
  has-get m key = has_loop-get_loop (m.size + 1) m key m.root
