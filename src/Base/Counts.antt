-- ===== src/Base/Counts.antt =====
-- How often a number is in a list, and the list without it.
use native.Mathlib.Omega.{arith}
use Prim.Native.Nat.{ℕ, ◌+◌, ◌≤◌}
use mathlib.Core.Path.{◌≡◌}
use mathlib.Core.List.{List, [], ◌∷◌, ◌++◌}
use vjuga.Base.Tests.{◌==◌, if◌then◌else◌}
use vjuga.Base.Lists.{length}

-- how often a number is in a list
unfoldable pub occurs : ℕ → List ℕ → ℕ
occurs x [] = 0
occurs x (y ∷ ys) = (if x == y then 1 else 0) + occurs x ys

-- the list without the first occurrence
unfoldable pub remove : ℕ → List ℕ → List ℕ
remove x [] = []
remove x (y ∷ ys) = let rest = y ∷ remove x ys in if x == y then ys else rest

pub length-remove : (x : ℕ) (ys : List ℕ) → 1 ≤ occurs x ys → length (remove x ys) + 1 ≡ length ys
unfolding occurs remove
length-remove x [] h = absurd (omega arith)
length-remove x (y ∷ ys) h = ground (arith, length-remove x ys)

pub occurs-remove :
    (x z : ℕ) (ys : List ℕ)
    → 1 ≤ occurs x ys
    → occurs z (remove x ys) + (if z == x then 1 else 0) ≡ occurs z ys
unfolding occurs remove
occurs-remove x z [] h = absurd (omega arith)
occurs-remove x z (y ∷ ys) h = ground (arith, occurs-remove x z ys)

pub occurs-append : (x : ℕ) (xs ys : List ℕ) → occurs x (xs ++ ys) ≡ occurs x xs + occurs x ys
unfolding occurs
occurs-append x [] ys = omega arith
occurs-append x (y ∷ xs) ys = omega (arith, occurs-append x xs ys)
