-- ===== src/Base/Modular.antt =====
-- Indices that go round at `c`.
use native.Mathlib.Nat.{mod-eq_of_lt, mod-eq-sub-mod}
use Prim.Native.Nat.{ℕ, ◌+◌, ◌-◌, ◌%◌, ◌≤◌, ◌<◌}
use mathlib.Core.Path.{◌≡◌, ◌∙◌}
use native.Mathlib.Omega.{arith}
use vjuga.Base.Tests.{ltb, if◌then◌else◌}

-- the remainder of a number below twice the modulus
pub wrap : (c x : ℕ) → x < c + c → x % c ≡ (if ltb x c then x else x - c)
wrap c x h = ground (arith, under, over)
  where
    under : x < c → x % c ≡ x
    under p = mod-eq_of_lt p

    over : c ≤ x → x % c ≡ x - c
    over p = mod-eq-sub-mod p ∙ mod-eq_of_lt (omega arith)
