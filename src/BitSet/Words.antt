-- ===== src/BitSet/Words.antt =====
-- The bits of a word of src/BitSet.ts under `&`, `|`, `^`, `~` and the shifts.
use Prim.Native.Nat.{bit_and, bit_or, bit_xor, differ, bit_and-bitwise}
use native.Mathlib.Nat.{div-div-eq-div-mul}
use vjuga.Base.{
  ℕ, zero, suc, ◌+◌, ◌-◌, ◌*◌, ◌/◌, ◌%◌, ◌^◌, ◌<◌, min, max, ◌≡◌, refl, ◌==◌, ltb, if◌then◌else◌,
  arith, ap, ap₂, subst, sym, ◌∙◌,
}
use vjuga.Base.Bits.{bit_and_step, bit_or_step, bit_xor_step, bit_and-mask, pow_double, pow_pos}

-- the bit at a place
unfoldable pub bit : ℕ → ℕ → ℕ
bit x zero = x % 2
bit x (suc i) = bit (x / 2) i

halves : (x y m : ℕ) → x ≡ y * 2 + m → m < 2 → (x / 2 ≡ y) × (x % 2 ≡ m)
halves x y m e h = (omega (arith, e, h), omega (arith, e, h))

differ-lt : (a b : ℕ) → a < 2 → b < 2 → differ a b < 2
differ-lt zero zero h k = omega arith
differ-lt zero (suc zero) h k = omega arith
differ-lt (suc zero) zero h k = omega arith
differ-lt (suc zero) (suc zero) h k = omega arith
differ-lt (suc (suc a)) b h k = absurd (omega (arith, h))
differ-lt a (suc (suc b)) h k = absurd (omega (arith, k))

pub bit-bit_and : (i a b : ℕ) → bit (bit_and a b) i ≡ min (bit a i) (bit b i)
unfolding bit
bit-bit_and zero a b = (halves _ _ _ (bit_and_step a b) (omega arith)).1
bit-bit_and (suc i) a b =
    ap (λ x. bit x i) (halves _ _ _ (bit_and_step a b) (omega arith)).0
    ∙ bit-bit_and i (a / 2) (b / 2)

pub bit-bit_or : (i a b : ℕ) → bit (bit_or a b) i ≡ max (bit a i) (bit b i)
unfolding bit
bit-bit_or zero a b = (halves _ _ _ (bit_or_step a b) (omega arith)).1
bit-bit_or (suc i) a b =
    ap (λ x. bit x i) (halves _ _ _ (bit_or_step a b) (omega arith)).0
    ∙ bit-bit_or i (a / 2) (b / 2)

pub bit-bit_xor : (i a b : ℕ) → bit (bit_xor a b) i ≡ differ (bit a i) (bit b i)
unfolding bit
bit-bit_xor zero a b =
    (halves _ _ _ (bit_xor_step a b) (differ-lt (a % 2) (b % 2) (omega arith) (omega arith))).1
bit-bit_xor (suc i) a b =
    ap (λ x. bit x i)
      (halves _ _ _ (bit_xor_step a b) (differ-lt (a % 2) (b % 2) (omega arith) (omega arith))).0
    ∙ bit-bit_xor i (a / 2) (b / 2)

pub bit-lt : (x i : ℕ) → bit x i < 2
unfolding bit
bit-lt x zero = omega arith
bit-lt x (suc i) = bit-lt (x / 2) i

pub bit-zero : (i : ℕ) → bit 0 i ≡ 0
unfolding bit
bit-zero zero = refl
bit-zero (suc i) = bit-zero i

pub bit-one : (i k : ℕ) → bit (2 ^ k) i ≡ (if i == k then 1 else 0)
unfolding bit
bit-one zero zero = ground arith
bit-one (suc i) zero = bit-zero i ∙ ground arith
bit-one zero (suc k) = ground (arith, pow_double k)
bit-one (suc i) (suc k) = ap (λ x. bit x i) half ∙ bit-one i k ∙ ground arith
  where
    half : 2 ^ suc k / 2 ≡ 2 ^ k
    half = omega (arith, pow_double k)

pub bit-complement : (n i x : ℕ) → x < 2 ^ n → i < n → bit (2 ^ n - 1 - x) i ≡ 1 - bit x i
unfolding bit
bit-complement zero i x h k = absurd (omega (arith, k))
bit-complement (suc n) zero x h k = omega (arith, pow_double n, pow_pos n, h)
bit-complement (suc n) (suc i) x h k =
    ap (λ y. bit y i) half
    ∙ bit-complement n i (x / 2) (omega (arith, pow_double n, h)) (omega (arith, k))
  where
    half : (2 ^ suc n - 1 - x) / 2 ≡ 2 ^ n - 1 - x / 2
    half = omega (arith, pow_double n, pow_pos n, h)

pub bit-mask : (n i : ℕ) → bit (2 ^ n - 1) i ≡ (if ltb i n then 1 else 0)
unfolding bit
bit-mask zero i = bit-zero i ∙ ground arith
bit-mask (suc n) zero = ground (arith, pow_double n, pow_pos n)
bit-mask (suc n) (suc i) = ap (λ y. bit y i) half ∙ bit-mask n i ∙ ground arith
  where
    half : (2 ^ suc n - 1) / 2 ≡ 2 ^ n - 1
    half = omega (arith, pow_double n, pow_pos n)

pub bit-shift : (x i : ℕ) → bit_and (x / 2 ^ i) 1 ≡ bit x i
unfolding bit
bit-shift x i = bit_and-mask 1 (x / 2 ^ i) ∙ shifted x i
  where
    shifted : (x i : ℕ) → x / 2 ^ i % 2 ≡ bit x i
    shifted x zero = omega arith
    shifted x (suc i) =
        ap (λ d. x / d % 2) (pow_double i)
        ∙ ap (λ y. y % 2) (sym (div-div-eq-div-mul x 2 (2 ^ i)))
        ∙ shifted (x / 2) i

pub bit_and-lt : (n a b : ℕ) → a < 2 ^ n → bit_and a b < 2 ^ n
bit_and-lt zero a b h =
    let e : 0 ≡ a = omega (arith, h) in
    subst (λ z. bit_and z b < 1) e (omega (arith, bit_and-bitwise 0 b))
bit_and-lt (suc n) a b h = omega (
  arith,
  bit_and_step a b,
  pow_double n,
  bit_and-lt n (a / 2) (b / 2) (omega (arith, pow_double n, h)),
  h,
)

pub bit_or-lt : (n a b : ℕ) → a < 2 ^ n → b < 2 ^ n → bit_or a b < 2 ^ n
bit_or-lt zero a b h k =
    let e : a ≡ 0 = omega (arith, h) in
    let f : b ≡ 0 = omega (arith, k) in omega (arith, ap₂ bit_or e f)
bit_or-lt (suc n) a b h k = omega (
  arith,
  bit_or_step a b,
  pow_double n,
  bit_or-lt n (a / 2) (b / 2) (omega (arith, pow_double n, h)) (omega (arith, pow_double n, k)),
  h,
  k,
)

pub bit_xor-lt : (n a b : ℕ) → a < 2 ^ n → b < 2 ^ n → bit_xor a b < 2 ^ n
bit_xor-lt zero a b h k =
    let e : a ≡ 0 = omega (arith, h) in
    let f : b ≡ 0 = omega (arith, k) in omega (arith, ap₂ bit_xor e f)
bit_xor-lt (suc n) a b h k = omega (
  arith,
  bit_xor_step a b,
  pow_double n,
  bit_xor-lt n (a / 2) (b / 2) (omega (arith, pow_double n, h)) (omega (arith, pow_double n, k)),
  differ-lt (a % 2) (b % 2) (omega arith) (omega arith),
  h,
  k,
)
