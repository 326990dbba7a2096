-- ===== src/BitSet/Total.antt =====
-- `popcount` of src/BitSet.ts counts the bits below the capacity.
use Prim.Native.Nat.{bit_and}
use vjuga.Base.{
  ℕ, zero, suc, ◌+◌, ◌-◌, ◌*◌, ◌/◌, ◌%◌, ◌^◌, ◌≤◌, ◌<◌, min, ◌≡◌, refl, List, [], ◌∷◌, ◌==◌, ltb,
  if◌then◌else◌, length, arith, ap, ap₂, sym, ◌∙◌, inl, inr, eq-cases,
}
use vjuga.BitSet.{BitSet, word_at, popcount, count_loop, last_mask}
use vjuga.BitSet.Words.{bit, bit-bit_and, bit-lt, bit_and-lt}
use vjuga.BitSet.Points.{bit_at, IsValid}
use vjuga.BitSet.Algebra.{bit-last_mask}
use vjuga.BitSet.Count.{ones, popcount32-ones}

-- the sum of `f` over the numbers below `n`
unfoldable pub count : (ℕ → ℕ) → ℕ → ℕ
count f zero = 0
count f (suc n) = f 0 + count (λ i. f (suc i)) n

count-eq : (f g : ℕ → ℕ) (n : ℕ) → ((i : ℕ) → i < n → f i ≡ g i) → count f n ≡ count g n
unfolding count
count-eq f g zero h = refl
count-eq f g (suc n) h =
    ap₂ (λ a b. a + b) (h 0 (omega arith))
      (count-eq (λ i. f (suc i)) (λ i. g (suc i)) n (λ i k. h (suc i) (omega (arith, k))))

count-add : (f : ℕ → ℕ) (n m : ℕ) → count f (n + m) ≡ count f n + count (λ i. f (n + i)) m
unfolding count
count-add f zero m =
    let e : 0 + m ≡ m = omega arith in
    let same : count f m ≡ count (λ i. f (0 + i)) m =
      count-eq f (λ i. f (0 + i)) m (λ i h. let g : i ≡ 0 + i = omega arith in ap f g) in
    omega (arith, ap (count f) e, same)
count-add f (suc n) m =
    let e : suc n + m ≡ suc (n + m) = omega arith in
    let same : count (λ i. f (suc (n + i))) m ≡ count (λ i. f (suc n + i)) m =
      count-eq (λ i. f (suc (n + i))) (λ i. f (suc n + i)) m
        (λ i h. let g : suc (n + i) ≡ suc n + i = omega arith in ap f g) in
    omega (arith, ap (count f) e, count-add (λ i. f (suc i)) n m, same)

count-none : (f : ℕ → ℕ) (n : ℕ) → ((i : ℕ) → f i ≡ 0) → count f n ≡ 0
unfolding count
count-none f zero h = refl
count-none f (suc n) h = omega (arith, h 0, count-none (λ i. f (suc i)) n (λ i. h (suc i)))

ones-count : (n x : ℕ) → ones n x ≡ count (bit x) n
unfolding ones count bit
ones-count zero x = refl
ones-count (suc n) x = ap (λ z. x % 2 + z) (ones-count n (x / 2))

bit_at-head : (x : ℕ) (words : List ℕ) (i : ℕ) → i < 32 → bit_at (x ∷ words) i ≡ bit x i
unfolding bit_at word_at
bit_at-head x words i h =
    let e : i / 32 ≡ 0 = omega (arith, h) in
    let g : i % 32 ≡ i = omega (arith, h) in ap₂ (λ w m. bit (word_at (x ∷ words) w) m) e g

bit_at-tail : (x : ℕ) (words : List ℕ) (i : ℕ) → bit_at (x ∷ words) (32 + i) ≡ bit_at words i
unfolding bit_at word_at
bit_at-tail x words i =
    let e : (32 + i) / 32 ≡ suc (i / 32) = omega arith in
    let g : (32 + i) % 32 ≡ i % 32 = omega arith in ap₂ (λ w m. bit (word_at (x ∷ words) w) m) e g

-- past the mask the last word has no ones
IsMasked : ℕ → List ℕ → Type 0
IsMasked mask words =
    (m : ℕ) → m < 32 → bit mask m ≡ 0 → bit_at words (32 * (length words - 1) + m) ≡ 0

count_loop-count :
    (mask : ℕ) (words : List ℕ)
    → 1 ≤ length words
    → ((w : ℕ) → word_at words w < 2 ^ 32)
    → IsMasked mask words
    → count_loop mask words ≡ count (bit_at words) (32 * length words)
unfolding count_loop IsMasked
count_loop-count mask [] h s k = absurd (omega (arith, h))
count_loop-count mask (x ∷ []) h s k =
    popcount32-ones (bit_and x mask) (bit_and-lt 32 x mask (unfold word_at in s 0))
    ∙ ones-count 32 (bit_and x mask)
    ∙ count-eq (bit (bit_and x mask)) (bit_at (x ∷ [])) 32
        (λ m g. bit-bit_and m x mask ∙ kept m g ∙ sym (bit_at-head x [] m g))
  where
    kept : (m : ℕ) → m < 32 → min (bit x m) (bit mask m) ≡ bit x m
    kept m g = elim (eq-cases (bit mask m) 0) [
      | inl e ↦
          let at : 32 * (1 - 1) + m ≡ m = omega arith in
          let z : bit x m ≡ 0 =
            sym (bit_at-head x [] m g) ∙ ap (bit_at (x ∷ [])) (sym at) ∙ k m g e in
          omega (arith, z)
      | inr e ↦ grind (arith, e, bit-lt x m, bit-lt mask m)
    ]
count_loop-count mask (x ∷ y ∷ words) h s k =
    let n : 32 * length (x ∷ y ∷ words) ≡ 32 + 32 * length (y ∷ words) = omega arith in
    let rest =
      count_loop-count mask (y ∷ words) (omega arith) (λ w. unfold word_at in s (suc w))
        (λ m g e.
          let at : 32 * (length (x ∷ y ∷ words) - 1) + m
              ≡ 32 + (32 * (length (y ∷ words) - 1) + m) =
            omega arith in
          sym (bit_at-tail x (y ∷ words) (32 * (length (y ∷ words) - 1) + m))
          ∙ ap (bit_at (x ∷ y ∷ words)) (sym at)
          ∙ k m g e) in
    ap₂ (λ a b. a + b) (popcount32-ones x (unfold word_at in s 0) ∙ ones-count 32 x) rest
    ∙ sym (
        ap (count (bit_at (x ∷ y ∷ words))) n
        ∙ count-add (bit_at (x ∷ y ∷ words)) 32 (32 * length (y ∷ words))
        ∙ ap₂ (λ a b. a + b)
            (count-eq (bit_at (x ∷ y ∷ words)) (bit x) 32 (λ i g. bit_at-head x (y ∷ words) i g))
            (count-eq (λ i. bit_at (x ∷ y ∷ words) (32 + i)) (bit_at (y ∷ words))
              (32 * length (y ∷ words)) (λ i g. bit_at-tail x (y ∷ words) i)))

last_mask-IsMasked : (bs : BitSet) → IsValid bs → IsMasked (last_mask bs.length_of) bs.bits
unfolding IsMasked
last_mask-IsMasked bs v m h e = v.excess (32 * (length bs.bits - 1) + m) (
    past bs.length_of m h (length bs.bits) v.words v.some_bits
      (sym (bit-last_mask bs.length_of m h) ∙ e))
  where
    past :
        (n m : ℕ)
        → m < 32
        → (l : ℕ) → l ≡ (n + 31) / 32
        → 1 ≤ n
        → ◌≡◌ {A = ℕ} (if n % 32 == 0 then 1 else (if ltb m (n % 32) then 1 else 0)) 0
        → n ≤ 32 * (l - 1) + m
    past n m h l w k e = ground (arith, h, w, k, e)

-- `popcount` of a valid bit set is the number of the indices below its capacity whose bit is 1.
pub popcount-count : (bs : BitSet) → IsValid bs → popcount bs ≡ count (bit_at bs.bits) bs.length_of
unfolding popcount
popcount-count bs v =
    let all : ℕ = 32 * length bs.bits in
    let n : all ≡ bs.length_of + (all - bs.length_of) = omega (arith, v.words) in
    let some_words : 1 ≤ length bs.bits = omega (arith, v.words, v.some_bits) in
    let past : count (λ i. bit_at bs.bits (bs.length_of + i)) (all - bs.length_of) ≡ 0 =
      count-none _ (all - bs.length_of) (λ i. v.excess (bs.length_of + i) (omega arith)) in
    omega (
      arith,
      count_loop-count (last_mask bs.length_of) bs.bits some_words v.small
          (last_mask-IsMasked bs v),
      ap (count (bit_at bs.bits)) n,
      count-add (bit_at bs.bits) bs.length_of (all - bs.length_of),
      past,
    )
