-- ===== src/Base/Bits.antt =====
-- The laws of `&`, `|` and `^` on non-negative integers at variables, and masks of ones.
use Prim.Native.Nat.{bit_and, bit_or, bit_xor, digits, bitwise, differ}
use Prim.Native.Nat.{bit_and-bitwise, bit_or-bitwise, bit_xor-bitwise}
use Prim.Native.Nat.{ℕ, zero, suc, ◌+◌, ◌-◌, ◌*◌, ◌/◌, ◌%◌, ◌^◌, ◌≤◌, ◌<◌, min, max}
use mathlib.Core.Path.{◌≡◌, refl, ap, ◌∙◌}
use native.Mathlib.Nat.{
  pow-suc, mul-add-mod_self_left, mod-eq_of_lt, mod-lt, div-add-mod, one-le-pow, pow-le-pow_right,
  mul_assoc,
}
use native.Mathlib.Omega.{arith}
use mathlib.Core.Logic.{inl, inr}
use vjuga.Base.Tests.{◌==◌, if◌then◌else◌, Bool-cases, eq-cases}

module _ (z : ℕ → ℕ) (f : ℕ → ℕ → ℕ) where
  digits-fuel : (n m a b : ℕ) → a ≤ n → a ≤ m → digits z f n a b ≡ digits z f m a b
  digits-fuel zero zero a b p q = refl
  digits-fuel zero (suc m) zero b p q = refl
  digits-fuel zero (suc m) (suc a) b p q = absurd (omega arith)
  digits-fuel (suc n) zero zero b p q = refl
  digits-fuel (suc n) zero (suc a) b p q = absurd (omega arith)
  digits-fuel (suc n) (suc m) zero b p q = refl
  digits-fuel (suc n) (suc m) (suc a) b p q =
      ap (λ t. t * 2 + f (suc a % 2) (b % 2))
        (digits-fuel n m (suc a / 2) (b / 2) (omega arith) (omega arith))

  -- the lowest digit apart
  bitwise_step :
      ((b : ℕ) → z b ≡ z (b / 2) * 2 + f 0 (b % 2))
      → (a b : ℕ) → bitwise z f a b ≡ bitwise z f (a / 2) (b / 2) * 2 + f (a % 2) (b % 2)
  bitwise_step h zero b = h b
  bitwise_step h (suc a) b =
      ap (λ t. t * 2 + f (suc a % 2) (b % 2))
        (digits-fuel a (suc a / 2) (suc a / 2) (b / 2) (omega arith) (omega arith))

pub bit_and_step : (a b : ℕ) → bit_and a b ≡ bit_and (a / 2) (b / 2) * 2 + min (a % 2) (b % 2)
bit_and_step a b = omega (
  arith,
  bit_and-bitwise a b,
  bit_and-bitwise (a / 2) (b / 2),
  bitwise_step (λ b. zero) min (λ b. omega arith) a b,
)

pub bit_or_step : (a b : ℕ) → bit_or a b ≡ bit_or (a / 2) (b / 2) * 2 + max (a % 2) (b % 2)
bit_or_step a b = omega (
  arith,
  bit_or-bitwise a b,
  bit_or-bitwise (a / 2) (b / 2),
  bitwise_step (λ b. b) max (λ b. omega arith) a b,
)

pub bit_xor_step : (a b : ℕ) → bit_xor a b ≡ bit_xor (a / 2) (b / 2) * 2 + differ (a % 2) (b % 2)
bit_xor_step a b = omega (
  arith,
  bit_xor-bitwise a b,
  bit_xor-bitwise (a / 2) (b / 2),
  bitwise_step (λ b. b) differ (λ b. omega arith) a b,
)

pub pow_pos : (k : ℕ) → 1 ≤ 2 ^ k
pow_pos k = one-le-pow k 2 (omega arith)

pub pow_double : (k : ℕ) → 2 ^ suc k ≡ 2 * 2 ^ k
pow_double k = omega (arith, pow-suc 2 k)

-- a remainder is determined by its equation
pub mod_unique : (m q r : ℕ) → r < m → (m * q + r) % m ≡ r
mod_unique m q r h = mul-add-mod_self_left m q r ∙ mod-eq_of_lt h

pub mod_double : (a p : ℕ) → 1 ≤ p → a % (2 * p) ≡ (a / 2 % p) * 2 + a % 2
mod_double a p h =
    ap (λ t. t % (2 * p)) split ∙ mod_unique (2 * p) (a / 2 / p) (a / 2 % p * 2 + a % 2) small
  where
    small : a / 2 % p * 2 + a % 2 < 2 * p
    small = omega (arith, mod-lt (a / 2) h)

    split : a ≡ 2 * p * (a / 2 / p) + (a / 2 % p * 2 + a % 2)
    split = omega (arith, div-add-mod (a / 2) p, mul_assoc 2 p (a / 2 / p))

bit_and-zero_below : (n a : ℕ) → a ≤ n → bit_and a 0 ≡ 0
bit_and-zero_below zero a h = omega (arith, bit_and-bitwise a 0, ap (λ t. bit_and t 0) (lemma a h))
  where
    lemma : (a : ℕ) → a ≤ 0 → a ≡ 0
    lemma a h = omega arith
bit_and-zero_below (suc n) zero h = bit_and-bitwise 0 0
bit_and-zero_below (suc n) (suc a) h =
    omega (arith, bit_and_step (suc a) 0, bit_and-zero_below n (suc a / 2) (omega arith))

pub bit_and-zero : (a : ℕ) → bit_and a 0 ≡ 0
bit_and-zero a = bit_and-zero_below a a (omega arith)

-- masking with k ones takes the remainder by 2 ^ k
pub bit_and-mask : (k a : ℕ) → bit_and a (2 ^ k - 1) ≡ a % 2 ^ k
bit_and-mask zero a = omega (arith, bit_and-zero a)
bit_and-mask (suc k) a = omega (
  arith,
  pow_double k,
  pow_pos k,
  ap (bit_and a) mask,
  bit_and_step a (2 * 2 ^ k - 1),
  ap (bit_and (a / 2)) half,
  bit_and-mask k (a / 2),
  mod_double a (2 ^ k) (pow_pos k),
  ap (λ t. a % t) (pow_double k),
)
  where
    mask : 2 ^ suc k - 1 ≡ 2 * 2 ^ k - 1
    mask = omega (arith, pow_double k)

    half : (2 * 2 ^ k - 1) / 2 ≡ 2 ^ k - 1
    half = omega (arith, pow_pos k)

pub bit_or-one : (a : ℕ) → bit_or a 1 ≡ a / 2 * 2 + 1
bit_or-one a = omega (arith, bit_or_step a 1, bit_or-zero (a / 2) (a / 2) (omega arith))
  where
    bit_or-zero : (n a : ℕ) → a ≤ n → bit_or a 0 ≡ a
    bit_or-zero zero zero h = bit_or-bitwise 0 0
    bit_or-zero (suc n) zero h = bit_or-bitwise 0 0
    bit_or-zero zero (suc a) h = absurd (omega arith)
    bit_or-zero (suc n) (suc a) h =
        omega (arith, bit_or_step (suc a) 0, bit_or-zero n (suc a / 2) (omega arith))

-- the number of binary digits, with room for `f` of them
unfoldable pub bit_length : ℕ → ℕ → ℕ
bit_length zero x = 0
bit_length (suc f) x = if x == 0 then 0 else suc (bit_length f (x / 2))

-- `Math.clz32`
unfoldable pub clz32 : ℕ → ℕ
unfolding bit_length
clz32 x = 32 - bit_length 32 (x % 2 ^ 32)

pub bit_length-upper : (f x : ℕ) → x < 2 ^ f → x < 2 ^ bit_length f x
unfolding bit_length
bit_length-upper zero x h = h
bit_length-upper (suc f) x h = elim (Bool-cases (x == 0)) [
  | inl e ↦ rw e (ground arith)
  | inr e ↦ rw e (
      omega (
        arith,
        pow_double f,
        pow_double (bit_length f (x / 2)),
        bit_length-upper f (x / 2) (omega (arith, pow_double f)),
      ))
]

pub bit_length-lower : (f x : ℕ) → 1 ≤ x → 2 ^ bit_length f x ≤ 2 * x
unfolding bit_length
bit_length-lower zero x h = omega arith
bit_length-lower (suc f) x h = elim (eq-cases x 1) [
  | inl e ↦ rw e (lemma f)
  | inr e ↦ ground (arith, pow_double (bit_length f (x / 2)), bit_length-lower f (x / 2))
]
  where
    at_zero : (f : ℕ) → bit_length f 0 ≡ 0
    at_zero zero = refl
    at_zero (suc f) = refl

    lemma : (f : ℕ) → 2 ^ bit_length (suc f) 1 ≤ 2 * 1
    lemma f = rw (at_zero f) (omega arith)

pub bit_length-le : (f m x : ℕ) → x < 2 ^ m → bit_length f x ≤ m
unfolding bit_length
bit_length-le zero m x h = omega arith
bit_length-le (suc f) zero x h = ground arith
bit_length-le (suc f) (suc m) x h = ground (arith, pow_double m, bit_length-le f m (x / 2))

-- below 2 ^ 31 the expression `1 << (32 - Math.clz32(x))` is the least power of two above `x`
pub clz32_lem : (x : ℕ) → x < 2 ^ 31 → 32 - clz32 x ≡ bit_length 32 x
unfolding clz32
clz32_lem x h = omega (arith, bit_length-le 32 31 x h, ap (bit_length 32) small)
  where
    small : x % 2 ^ 32 ≡ x
    small = omega arith

pub pow_mono : (a b : ℕ) → a ≤ b → 2 ^ a ≤ 2 ^ b
pow_mono a b h = pow-le-pow_right {n = 2} two_pos {i = a} {j = b} h
  where
    two_pos : 0 < 2
    two_pos = omega arith

pub pow_halved : (k : ℕ) → 1 ≤ k → 2 ^ k ≡ 2 * 2 ^ (k - 1)
pow_halved zero h = absurd (omega arith)
pow_halved (suc k) h = pow_double k ∙ ap (λ t. 2 * 2 ^ t) same
  where
    same : k ≡ suc k - 1
    same = omega arith
