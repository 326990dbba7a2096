-- ===== src/BitSet/Count.antt =====
-- `popcount32` of src/BitSet.ts: the parallel sums, in pairs of bits, in fours and in bytes.
use Prim.Native.Nat.{bit_and}
use vjuga.Base.{ℕ, zero, suc, ◌+◌, ◌-◌, ◌*◌, ◌/◌, ◌%◌, ◌^◌, ◌≤◌, ◌<◌, ◌≡◌, arith, ap, ap₂, sym, ◌∙◌}
use native.Mathlib.Nat.{pow-suc}
use vjuga.Base.Bits.{bit_and_step, bit_and-zero}
use vjuga.BitSet.{popcount32}

-- the number of ones among the lowest `n` bits
unfoldable pub ones : ℕ → ℕ → ℕ
ones zero x = 0
ones (suc n) x = x % 2 + ones n (x / 2)

-- the masks of `popcount32`, of `k` groups
pair_mask : ℕ → ℕ
pair_mask zero = 0
pair_mask (suc k) = 1 + 4 * pair_mask k

four_mask : ℕ → ℕ
four_mask zero = 0
four_mask (suc k) = 3 + 16 * four_mask k

byte_mask : ℕ → ℕ
byte_mask zero = 0
byte_mask (suc k) = 15 + 256 * byte_mask k

-- the sums of the groups, each at the place of its group
pairs : ℕ → ℕ → ℕ
pairs zero x = 0
pairs (suc k) x = x % 2 + x / 2 % 2 + 4 * pairs k (x / 4)

abbrev four : ℕ → ℕ
four x = x % 2 + x / 2 % 2 + (x / 4 % 2 + x / 8 % 2)

fours : ℕ → ℕ → ℕ
fours zero x = 0
fours (suc k) x = four x + 16 * fours k (x / 16)

bytes : ℕ → ℕ → ℕ
bytes zero x = 0
bytes (suc k) x = ones 8 x + 256 * bytes k (x / 256)

and-one : (a m : ℕ) → bit_and a (1 + 4 * m) ≡ a % 2 + 4 * bit_and (a / 4) m
and-one a m =
    let e : (1 + 4 * m) / 2 ≡ 2 * m = omega arith in
    let f : 2 * m / 2 ≡ m = omega arith in
    let g : a / 2 / 2 ≡ a / 4 = omega arith in
    omega (
      arith,
      bit_and_step a (1 + 4 * m),
      ap (bit_and (a / 2)) e,
      bit_and_step (a / 2) (2 * m),
      ap₂ bit_and g f,
    )

and-three : (a m : ℕ) → bit_and a (3 + 16 * m) ≡ a % 4 + 16 * bit_and (a / 16) m
and-three a m =
    let e : (3 + 16 * m) / 2 ≡ 1 + 4 * (2 * m) = omega arith in
    let g : a / 2 / 4 ≡ a / 8 = omega arith in
    let f : 2 * m / 2 ≡ m = omega arith in
    let h : a / 8 / 2 ≡ a / 16 = omega arith in
    omega (
      arith,
      bit_and_step a (3 + 16 * m),
      ap (bit_and (a / 2)) e,
      and-one (a / 2) (2 * m),
      ap (λ z. bit_and z (2 * m)) g,
      bit_and_step (a / 8) (2 * m),
      ap₂ bit_and h f,
    )

and-fifteen : (a m : ℕ) → bit_and a (15 + 256 * m) ≡ a % 16 + 256 * bit_and (a / 256) m
and-fifteen a m =
    let e : (15 + 256 * m) / 2 ≡ 7 + 128 * m = omega arith in
    let e' : (7 + 128 * m) / 2 ≡ 3 + 16 * (4 * m) = omega arith in
    let g : a / 2 / 2 ≡ a / 4 = omega arith in
    let g' : a / 4 / 16 ≡ a / 64 = omega arith in
    let f : 4 * m / 2 ≡ 2 * m = omega arith in
    let f' : 2 * m / 2 ≡ m = omega arith in
    let h : a / 64 / 2 ≡ a / 128 = omega arith in
    let h' : a / 128 / 2 ≡ a / 256 = omega arith in
    omega (
      arith,
      bit_and_step a (15 + 256 * m),
      ap (bit_and (a / 2)) e,
      bit_and_step (a / 2) (7 + 128 * m),
      ap₂ bit_and g e',
      and-three (a / 4) (4 * m),
      ap (λ z. bit_and z (4 * m)) g',
      bit_and_step (a / 64) (4 * m),
      ap₂ bit_and h f,
      bit_and_step (a / 128) (2 * m),
      ap₂ bit_and h' f',
    )

double : ℕ → ℕ
double zero = zero
double (suc k) = suc (suc (double k))

pairs_split : (k x : ℕ) → x < 4 ^ k → x ≡ pairs k x + bit_and (x / 2) (pair_mask k)
unfolding pairs pair_mask
pairs_split zero x h = omega (arith, bit_and-zero (x / 2), h)
pairs_split (suc k) x h =
    let e : x / 2 / 4 ≡ x / 4 / 2 = omega arith in
    omega (
      arith,
      and-one (x / 2) (pair_mask k),
      ap (λ z. bit_and z (pair_mask k)) e,
      pairs_split k (x / 4) (omega (arith, h, pow-suc 4 k)),
    )

pairs-two :
    (d x : ℕ)
    → pairs (suc (suc d)) x ≡ x % 2 + x / 2 % 2 + 4 * (x / 4 % 2 + x / 8 % 2 + 4 * pairs d (x / 16))
unfolding pairs
pairs-two d x =
    let e : x / 4 / 4 ≡ x / 16 = omega arith in
    let g : x / 4 / 2 ≡ x / 8 = omega arith in
    ap₂ (λ a b. x % 2 + x / 2 % 2 + 4 * (x / 4 % 2 + a % 2 + 4 * pairs d b)) g e

fours_sum :
    (k x : ℕ)
    → bit_and (pairs (double k) x) (four_mask k) + bit_and (pairs (double k) x / 4) (four_mask k)
      ≡ fours k x
unfolding fours four_mask double
fours_sum zero x = omega (arith, bit_and-zero (pairs 0 x), bit_and-zero (pairs 0 x / 4))
fours_sum (suc k) x =
    let y : ℕ = pairs (suc (suc (double k))) x in
    let b : ℕ = pairs (double k) (x / 16) in
    let split : y ≡ x % 2 + x / 2 % 2 + 4 * (x / 4 % 2 + x / 8 % 2 + 4 * b) =
      pairs-two (double k) x in
    let low : y / 16 ≡ b = omega (arith, split) in
    let high : y / 4 / 16 ≡ b / 4 = omega (arith, split) in
    omega (
      arith,
      split,
      and-three y (four_mask k),
      and-three (y / 4) (four_mask k),
      ap (λ z. bit_and z (four_mask k)) low,
      ap (λ z. bit_and z (four_mask k)) high,
      fours_sum k (x / 16),
    )

fours-low : (k x : ℕ) → fours k x % 16 ≤ 4
unfolding fours
fours-low zero x = omega arith
fours-low (suc k) x = omega arith

fours-two :
    (d x : ℕ) → fours (suc (suc d)) x ≡ four x + 16 * (four (x / 16) + 16 * fours d (x / 256))
unfolding fours
fours-two d x =
    let e : x / 16 / 16 ≡ x / 256 = omega arith in
    ap (λ b. four x + 16 * (four (x / 16) + 16 * fours d b)) e

ones-four : (m x : ℕ) → ones (suc (suc (suc (suc m)))) x ≡ four x + ones m (x / 16)
unfolding ones
ones-four m x =
    let e : x / 2 / 2 ≡ x / 4 = omega arith in
    let f : x / 4 / 2 ≡ x / 8 = omega arith in
    let g : x / 8 / 2 ≡ x / 16 = omega arith in
    ap (λ a. x % 2 + (x / 2 % 2 + (a % 2 + (a / 2 % 2 + ones m (a / 2 / 2))))) e
    ∙ ap (λ a. x % 2 + (x / 2 % 2 + (x / 4 % 2 + (a % 2 + ones m (a / 2))))) f
    ∙ ap (λ a. x % 2 + (x / 2 % 2 + (x / 4 % 2 + (x / 8 % 2 + ones m a)))) g
    ∙ omega arith

ones-eight : (x : ℕ) → ones 8 x ≡ four x + four (x / 16)
ones-eight x =
    ones-four 4 x ∙ ap (λ z. four x + z) (ones-four 0 (x / 16) ∙ (unfold ones in omega arith))

bytes_sum :
    (k x : ℕ) → bit_and (fours (double k) x + fours (double k) x / 16) (byte_mask k) ≡ bytes k x
unfolding bytes byte_mask double
bytes_sum zero x = omega (arith, bit_and-zero (fours 0 x + fours 0 x / 16))
bytes_sum (suc k) x =
    let y : ℕ = fours (suc (suc (double k))) x in
    let b : ℕ = fours (double k) (x / 256) in
    let split : y ≡ four x + 16 * (four (x / 16) + 16 * b) = fours-two (double k) x in
    let small : b % 16 ≤ 4 = fours-low (double k) (x / 256) in
    let n : four x ≤ 4 = omega arith in
    let m : four (x / 16) ≤ 4 = omega arith in
    let high : (y + y / 16) / 256 ≡ b + b / 16 =
      carry (four x) (four (x / 16)) b y split small n m in
    let low : (y + y / 16) % 16 ≡ four x + four (x / 16) =
      carry_low (four x) (four (x / 16)) b y split n m in
    and-fifteen (y + y / 16) (byte_mask k)
    ∙ ap₂ (λ a c. a + 256 * c) (low ∙ sym (ones-eight x))
        (ap (λ z. bit_and z (byte_mask k)) high ∙ bytes_sum k (x / 256))
  where
    carry :
        (p q b y : ℕ)
        → y ≡ p + 16 * (q + 16 * b)
        → b % 16 ≤ 4
        → p ≤ 4
        → q ≤ 4
        → (y + y / 16) / 256 ≡ b + b / 16
    carry p q b y e s n m = omega (arith, e, s, n, m)

    carry_low :
        (p q b y : ℕ) → y ≡ p + 16 * (q + 16 * b) → p ≤ 4 → q ≤ 4 → (y + y / 16) % 16 ≡ p + q
    carry_low p q b y e n m = omega (arith, e, n, m)

ones-byte :
    (m x : ℕ)
    → ones (suc (suc (suc (suc (suc (suc (suc (suc m)))))))) x ≡ ones 8 x + ones m (x / 256)
ones-byte m x =
    let e : x / 16 / 16 ≡ x / 256 = omega arith in
    omega (
      arith,
      ones-four (suc (suc (suc (suc m)))) x,
      ones-four m (x / 16),
      ones-eight x,
      ap (ones m) e,
    )

ones-le : (n x : ℕ) → ones n x ≤ n
unfolding ones
ones-le zero x = omega arith
ones-le (suc n) x = omega (arith, ones-le n (x / 2))

-- the product adds the four bytes in its highest byte
gather :
    (a b c d : ℕ)
    → a ≤ 8
    → b ≤ 8
    → c ≤ 8
    → d ≤ 8
    → (a + 256 * (b + 256 * (c + 256 * (d + 256 * 0)))) * 0x01010101 % 2 ^ 32 / 2 ^ 24
      ≡ a + (b + (c + d))
gather a b c d h i j k = omega (arith, h, i, j, k)

-- `popcount32` of a word is the number of its ones.
pub popcount32-ones : (v : ℕ) → v < 2 ^ 32 → popcount32 v ≡ ones 32 v
unfolding popcount32 pair_mask four_mask byte_mask double bytes
popcount32-ones v h =
    ap (λ a. after_pairs a) (paired)
    ∙ ap (λ b. after_fours b) (fours_sum 8 v)
    ∙ ap (λ c. c * 0x01010101 % 2 ^ 32 / 2 ^ 24) (bytes_sum 4 v)
    ∙ gather (ones 8 v) (ones 8 (v / 256)) (ones 8 (v / 256 / 256)) (ones 8 (v / 256 / 256 / 256))
        (ones-le 8 v) (ones-le 8 (v / 256)) (ones-le 8 (v / 256 / 256))
        (ones-le 8 (v / 256 / 256 / 256))
    ∙ sym all_bytes
  where
    after_fours : ℕ → ℕ
    after_fours b = bit_and (b + b / 16) 0x0f0f0f0f * 0x01010101 % 2 ^ 32 / 2 ^ 24

    after_pairs : ℕ → ℕ
    after_pairs a = after_fours (bit_and a 0x33333333 + bit_and (a / 4) 0x33333333)

    paired : v - bit_and (v / 2) 0x55555555 ≡ pairs 16 v
    paired = omega (arith, pairs_split 16 v h)

    all_bytes :
        ones 32 v
        ≡ ones 8 v + (ones 8 (v / 256) + (ones 8 (v / 256 / 256) + ones 8 (v / 256 / 256 / 256)))
    all_bytes = omega (arith, ones-byte 24 v, ones-byte 16 (v / 256), ones-byte 8 (v / 256 / 256))
