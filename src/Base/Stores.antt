-- ===== src/Base/Stores.antt =====
-- An array whose indices in use stay within its bounds, as a function of the index.
use Prim.Native.Nat.{ℕ}
use native.Mathlib.Omega.{arith}
use mathlib.Core.Path.{◌≡◌}
use vjuga.Base.Tests.{◌==◌, if◌then◌else◌}

-- the array after a write
abbrev pub put {ℓ} : {A : Type ℓ} → (ℕ → A) → ℕ → A → ℕ → A
put store i v j = if j == i then v else store j

pub put_self : {A : Type 0} (store : ℕ → A) (i : ℕ) (v : A) → put store i v i ≡ v
put_self store i v = ground arith

pub put_other :
    {A : Type 0} (store : ℕ → A) (i : ℕ) (v : A) (j : ℕ) → (j ≡ i → ⊥) → put store i v j ≡ store j
put_other store i v j n = ground (arith, n)
