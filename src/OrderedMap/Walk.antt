-- ===== src/OrderedMap/Walk.antt =====
-- The traversals of src/OrderedMap.ts with an explicit stack. A generator is the list of what it
-- yields; the callback of `forRange` is the list of its arguments, which has `count` elements. A loop
-- that descends is on fuel, and a loop that pops has one round for each node.
use vjuga.Base.{ℕ, zero, suc, ◌+◌, Option, none, some, List, [], ◌∷◌}
use Prim.Native.Nat.{Ordering, lt, eq, gt}
use vjuga.OrderedMap.{OrderedMap}
use vjuga.OrderedMap.Read.{entry_at}

module _ {K V : Type 0} (m : OrderedMap K V) where
  -- `while (cur !== NULL) { stack.push(cur); cur = left[cur]; }`
  unfoldable pub push_left : ℕ → Option ℕ → List ℕ → List ℕ
  push_left zero cur stack = stack
  push_left (suc fuel) none stack = stack
  push_left (suc fuel) (some n) stack = push_left fuel (m.left n) (n ∷ stack)

  module _ {A : Type 0} (yields : ℕ → A) where
    -- the outer loop, with the left spine of `cur` already pushed; a node yields its part of the entry
    unfoldable pub pop_loop : ℕ → List ℕ → List A
    pop_loop zero stack = []
    pop_loop (suc fuel) [] = []
    pop_loop (suc fuel) (n ∷ stack) =
        yields n ∷ pop_loop fuel (push_left (m.size + 1) (m.right n) stack)

    unfoldable pub traverse : List A
    traverse = pop_loop m.size (push_left (m.size + 1) m.root [])

  unfoldable pub keys : List K
  keys = traverse m.keys

  unfoldable pub values : List V
  values = traverse m.vals

  unfoldable pub entries : List (K × V)
  entries = traverse (entry_at m)

module _ {K V : Type 0} (cmp : K → K → Ordering) (m : OrderedMap K V) where
  -- the first loop of `range` and `forRange`: the path to the first key from `lo` on
  unfoldable pub push_from : ℕ → K → Option ℕ → List ℕ → List ℕ
  push_from zero lo cur stack = stack
  push_from (suc fuel) lo none stack = stack
  push_from (suc fuel) lo (some n) stack = elim (cmp (m.keys n) lo) [
    | lt ↦ push_from fuel lo (m.right n) stack
    | gt ↦ push_from fuel lo (m.left n) (n ∷ stack)
    | eq ↦ push_from fuel lo (m.left n) (n ∷ stack)
  ]

  -- the second loop: it ends at the first key above `hi`
  unfoldable pub pop_range : ℕ → K → List ℕ → List (K × V)
  pop_range zero hi stack = []
  pop_range (suc fuel) hi [] = []
  pop_range (suc fuel) hi (n ∷ stack) = elim (cmp (m.keys n) hi) [
    | lt ↦ entry_at m n ∷ pop_range fuel hi (push_left m (m.size + 1) (m.right n) stack)
    | gt ↦ []
    | eq ↦ entry_at m n ∷ pop_range fuel hi (push_left m (m.size + 1) (m.right n) stack)
  ]

  unfoldable pub range : K → K → List (K × V)
  range lo hi = pop_range m.size hi (push_from (m.size + 1) lo m.root [])
