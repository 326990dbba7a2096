-- ===== src/OrderedMap/Read.antt =====
-- The lookups of src/OrderedMap.ts. Their loops go down the tree, on fuel above its depth.
use vjuga.Base.{ℕ, zero, suc, ◌+◌, Bool, true, false, Option, none, some}
use Prim.Native.Nat.{Ordering, lt, eq, gt}
use vjuga.OrderedMap.{OrderedMap}

module _ {K V : Type 0} where
  abbrev pub entry_at : OrderedMap K V → ℕ → K × V
  entry_at m n = (m.keys n, m.vals n)

  -- `best === NULL ? undefined : [keys[best], vals[best]]`
  abbrev pub entry_of : OrderedMap K V → Option ℕ → Option (K × V)
  entry_of m none = none
  entry_of m (some n) = some (entry_at m n)

  unfoldable pub min_loop : ℕ → OrderedMap K V → ℕ → K × V
  min_loop zero m n = entry_at m n
  min_loop (suc fuel) m n = elim (m.left n) [ none ↦ entry_at m n | some l ↦ min_loop fuel m l ]

  unfoldable pub min_from : OrderedMap K V → Option ℕ → Option (K × V)
  min_from m none = none
  min_from m (some n) = some (min_loop m.size m n)

  unfoldable pub min : OrderedMap K V → Option (K × V)
  min m = min_from m m.root

  unfoldable pub max_loop : ℕ → OrderedMap K V → ℕ → K × V
  max_loop zero m n = entry_at m n
  max_loop (suc fuel) m n = elim (m.right n) [ none ↦ entry_at m n | some r ↦ max_loop fuel m r ]

  unfoldable pub max_from : OrderedMap K V → Option ℕ → Option (K × V)
  max_from m none = none
  max_from m (some n) = some (max_loop m.size m n)

  unfoldable pub max : OrderedMap K V → Option (K × V)
  max m = max_from m m.root

module _ {K V : Type 0} (cmp : K → K → Ordering) where
  unfoldable pub get_loop : ℕ → OrderedMap K V → K → Option ℕ → Option V
  get_loop zero m key n = none
  get_loop (suc fuel) m key none = none
  get_loop (suc fuel) m key (some n) = elim (cmp key (m.keys n)) [
    | lt ↦ get_loop fuel m key (m.left n)
    | gt ↦ get_loop fuel m key (m.right n)
    | eq ↦ some (m.vals n)
  ]

  unfoldable pub get : OrderedMap K V → K → Option V
  get m key = get_loop (m.size + 1) m key m.root

  unfoldable pub has_loop : ℕ → OrderedMap K V → K → Option ℕ → Bool
  has_loop zero m key n = false
  has_loop (suc fuel) m key none = false
  has_loop (suc fuel) m key (some n) = elim (cmp key (m.keys n)) [
    | lt ↦ has_loop fuel m key (m.left n)
    | gt ↦ has_loop fuel m key (m.right n)
    | eq ↦ true
  ]

  unfoldable pub has : OrderedMap K V → K → Bool
  has m key = has_loop (m.size + 1) m key m.root

  unfoldable pub floor_loop : ℕ → OrderedMap K V → K → Option ℕ → Option ℕ → Option (K × V)
  floor_loop zero m key n best = none
  floor_loop (suc fuel) m key none best = entry_of m best
  floor_loop (suc fuel) m key (some n) best = elim (cmp key (m.keys n)) [
    | lt ↦ floor_loop fuel m key (m.left n) best
    | gt ↦ floor_loop fuel m key (m.right n) (some n)
    | eq ↦ some (entry_at m n)
  ]

  unfoldable pub floor : OrderedMap K V → K → Option (K × V)
  floor m key = floor_loop (m.size + 1) m key m.root none

  unfoldable pub ceiling_loop : ℕ → OrderedMap K V → K → Option ℕ → Option ℕ → Option (K × V)
  ceiling_loop zero m key n best = none
  ceiling_loop (suc fuel) m key none best = entry_of m best
  ceiling_loop (suc fuel) m key (some n) best = elim (cmp key (m.keys n)) [
    | lt ↦ ceiling_loop fuel m key (m.left n) (some n)
    | gt ↦ ceiling_loop fuel m key (m.right n) best
    | eq ↦ some (entry_at m n)
  ]

  unfoldable pub ceiling : OrderedMap K V → K → Option (K × V)
  ceiling m key = ceiling_loop (m.size + 1) m key m.root none
