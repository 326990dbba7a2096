-- ===== src/BitSet/Algebra.antt =====
-- `and`, `or`, `xor` and `not` of src/BitSet.ts, bit by bit.
use Prim.Native.Nat.{bit_and, bit_or, bit_xor, differ}
use vjuga.Base.{
  ℕ, zero, suc, ◌+◌, ◌-◌, ◌/◌, ◌%◌, ◌^◌, ◌≤◌, ◌<◌, min, max, ◌≡◌, refl, true, false, Option, none,
  some, List, [], ◌∷◌, ◌==◌, ltb, if◌then◌else◌, length, arith, ap, ap₂, sym, ◌∙◌, subst, ◌≢◌, ◌⊎◌,
  inl, inr, eq-cases, Bool-cases, lt-cases,
}
use vjuga.Base.Bits.{bit_and-mask}
use vjuga.BitSet.{
  BitSet, word_at, complement, check_same_capacity, combine, make_from_bits, and, or, xor,
  last_mask, complement_all, not_set,
}
use vjuga.BitSet.Words.{
  bit, bit-bit_and, bit-bit_or, bit-bit_xor, bit-mask, bit-zero, bit-complement, bit_and-lt,
  bit_or-lt, bit_xor-lt,
}
use vjuga.BitSet.Points.{bit_at, IsValid}

pub data Operation : Type 0 where
  ands ors xors : Operation

unfoldable pub operate : Operation → BitSet → BitSet → Option BitSet
operate ands = and
operate ors = or
operate xors = xor

on_words : Operation → ℕ → ℕ → ℕ
on_words ands = bit_and
on_words ors = bit_or
on_words xors = bit_xor

unfoldable pub on_bits : Operation → ℕ → ℕ → ℕ
on_bits ands = min
on_bits ors = max
on_bits xors = differ

bit-on_words : (o : Operation) (m x y : ℕ) → bit (on_words o x y) m ≡ on_bits o (bit x m) (bit y m)
unfolding on_words on_bits
bit-on_words ands m x y = bit-bit_and m x y
bit-on_words ors m x y = bit-bit_or m x y
bit-on_words xors m x y = bit-bit_xor m x y

on_words-lt : (o : Operation) (x y : ℕ) → x < 2 ^ 32 → y < 2 ^ 32 → on_words o x y < 2 ^ 32
unfolding on_words
on_words-lt ands x y h k = bit_and-lt 32 x y h
on_words-lt ors x y h k = bit_or-lt 32 x y h k
on_words-lt xors x y h k = bit_xor-lt 32 x y h k

on_bits-zero : (o : Operation) → on_bits o 0 0 ≡ 0
unfolding on_bits
on_bits-zero ands = refl
on_bits-zero ors = refl
on_bits-zero xors = refl

on_words-zero : (o : Operation) → on_words o 0 0 ≡ 0
unfolding on_words
on_words-zero ands = refl
on_words-zero ors = refl
on_words-zero xors = refl

word_at-combine :
    (o : Operation) (ra rb : List ℕ) (w : ℕ)
    → length ra ≡ length rb
    → word_at (combine (on_words o) ra rb) w ≡ on_words o (word_at ra w) (word_at rb w)
unfolding combine word_at
word_at-combine o [] [] w h = sym (on_words-zero o)
word_at-combine o [] (y ∷ rb) w h = absurd (omega (arith, h))
word_at-combine o (x ∷ ra) [] w h = absurd (omega (arith, h))
word_at-combine o (x ∷ ra) (y ∷ rb) zero h = refl
word_at-combine o (x ∷ ra) (y ∷ rb) (suc w) h = word_at-combine o ra rb w (omega (arith, h))

length-combine : (f : ℕ → ℕ → ℕ) (ra rb : List ℕ) → length (combine f ra rb) ≡ length ra
unfolding combine
length-combine f [] rb = refl
length-combine f (x ∷ ra) [] = ap suc (length-combine f ra [])
length-combine f (x ∷ ra) (y ∷ rb) = ap suc (length-combine f ra rb)

combined : Operation → BitSet → BitSet → BitSet
combined o a b = record { bits = combine (on_words o) a.bits b.bits; length_of = a.length_of }

operate-if :
    (o : Operation) (a b : BitSet)
    → operate o a b ≡ (if a.length_of == b.length_of then some (combined o a b) else none)
unfolding operate and or xor check_same_capacity combined on_words make_from_bits
operate-if ands a b = refl
operate-if ors a b = refl
operate-if xors a b = refl

operate-some :
    (o : Operation) (a b : BitSet)
    → a.length_of ≡ b.length_of
    → operate o a b ≡ some (combined o a b)
operate-some o a b h =
    let e : (a.length_of == b.length_of) ≡ true = ground (arith, h) in operate-if o a b ∙ rw e refl

operate-none :
    (o : Operation) (a b : BitSet) → (a.length_of ≡ b.length_of → ⊥) → operate o a b ≡ none
operate-none o a b h = elim (Bool-cases (a.length_of == b.length_of)) [
  | inl e ↦ absurd (h (ground (arith, e)))
  | inr e ↦ operate-if o a b ∙ rw e refl
]

same_words :
    (a b : BitSet)
    → IsValid a
    → IsValid b
    → a.length_of ≡ b.length_of
    → length a.bits ≡ length b.bits
same_words a b v u h = v.words ∙ ap (λ n. (n + 31) / 32) h ∙ sym u.words

combined-bits :
    (o : Operation) (a b : BitSet)
    → length a.bits ≡ length b.bits
    → (j : ℕ) → bit_at (combined o a b).bits j ≡ on_bits o (bit_at a.bits j) (bit_at b.bits j)
unfolding combined bit_at
combined-bits o a b h j =
    ap (λ x. bit x (j % 32)) (word_at-combine o a.bits b.bits (j / 32) h)
    ∙ bit-on_words o (j % 32) (word_at a.bits (j / 32)) (word_at b.bits (j / 32))

combined-IsValid :
    (o : Operation) (a b : BitSet)
    → IsValid a
    → IsValid b
    → a.length_of ≡ b.length_of
    → IsValid (combined o a b)
unfolding combined
combined-IsValid o a b v u h = record {
  some_bits = v.some_bits;
  within = v.within;
  words = length-combine (on_words o) a.bits b.bits ∙ v.words;
  small = λ w.
      subst (λ z. z < 2 ^ 32) (sym (word_at-combine o a.bits b.bits w (same_words a b v u h)))
        (on_words-lt o (word_at a.bits w) (word_at b.bits w) (v.small w) (u.small w));
  excess = λ j g.
      combined-bits o a b (same_words a b v u h) j
      ∙ ap₂ (on_bits o) (v.excess j g) (u.excess j (omega (arith, g, h)))
      ∙ on_bits-zero o;
}

-- `and`, `or` and `xor` of valid bit sets of the same capacity return a valid one of that capacity whose
-- bits are the operation's on the bits of the two; for other capacities they throw.
pub operate-bits :
    (o : Operation) (a b : BitSet)
    → IsValid a
    → IsValid b
    → ((a.length_of ≢ b.length_of) × (operate o a b ≡ none))
      ⊎ ((a.length_of ≡ b.length_of)
          × ((r : BitSet) × (operate o a b ≡ some r)
              × IsValid r
              × (r.length_of ≡ a.length_of)
              × ((j : ℕ) → bit_at r.bits j ≡ on_bits o (bit_at a.bits j) (bit_at b.bits j))))
operate-bits o a b v u = elim (eq-cases a.length_of b.length_of) [
  | inr h ↦ inl (h, operate-none o a b h)
  | inl h ↦ inr (
    h,
    (
      combined o a b,
      operate-some o a b h,
      combined-IsValid o a b v u h,
      unfold combined in refl,
      combined-bits o a b (same_words a b v u h),
    ),
  )
]

word_at-complement_all :
    (mask : ℕ) (words : List ℕ) (w : ℕ)
    → w < length words
    → word_at (complement_all mask words) w ≡ (
        if suc w == length words
        then bit_and (complement (word_at words w)) mask
        else complement (word_at words w))
unfolding complement_all word_at
word_at-complement_all mask [] w h = absurd (omega (arith, h))
word_at-complement_all mask (x ∷ []) zero h = refl
word_at-complement_all mask (x ∷ []) (suc w) h = absurd (omega (arith, h))
word_at-complement_all mask (x ∷ y ∷ words) zero h = ground arith
word_at-complement_all mask (x ∷ y ∷ words) (suc w) h =
    word_at-complement_all mask (y ∷ words) w (omega (arith, h)) ∙ ground arith

word_at-past : (words : List ℕ) (w : ℕ) → length words ≤ w → word_at words w ≡ 0
unfolding word_at
word_at-past [] w h = refl
word_at-past (x ∷ words) zero h = absurd (omega (arith, h))
word_at-past (x ∷ words) (suc w) h = word_at-past words w (omega (arith, h))

length-complement_all :
    (mask : ℕ) (words : List ℕ) → length (complement_all mask words) ≡ length words
unfolding complement_all
length-complement_all mask [] = refl
length-complement_all mask (x ∷ []) = refl
length-complement_all mask (x ∷ y ∷ words) = ap suc (length-complement_all mask (y ∷ words))

pub bit-last_mask :
    (n m : ℕ)
    → m < 32
    → bit (last_mask n) m ≡ (if n % 32 == 0 then 1 else (if ltb m (n % 32) then 1 else 0))
unfolding last_mask
bit-last_mask n m h =
    ap (λ r. bit (if r == 0 then 2 ^ 32 - 1 else 2 ^ r - 1) m) (bit_and-mask 5 n)
    ∙ elim (Bool-cases (n % 32 == 0)) [
      | inl e ↦ rw e (bit-mask 32 m ∙ (let l : ltb m 32 ≡ true = ground (arith, h) in rw l refl))
      | inr e ↦ rw e (bit-mask (n % 32) m)
    ]

abbrev mask_bit : ℕ → ℕ → ℕ
mask_bit j n = if n % 32 == 0 then 1 else (if ltb (j % 32) (n % 32) then 1 else 0)

masked :
    (b j n : ℕ)
    → b < 2
    → suc (j / 32) ≡ (n + 31) / 32
    → 1 ≤ n
    → min b (mask_bit j n) ≡ (if ltb j n then b else 0)
masked b j n h e k = elim (lt-cases j n) [
  | inl g ↦
      let inside : ltb j n ≡ true = ground (arith, g) in
      let one : mask_bit j n ≡ 1 = ground (arith, g, e) in rw (inside, one) (omega (arith, h))
  | inr g ↦
      let outside : ltb j n ≡ false = ground (arith, g) in
      let none_set : mask_bit j n ≡ 0 = ground (arith, g, e, k) in
      rw (outside, none_set) (omega arith)
]

-- the bits of the complement, below the capacity and past it
not_bits :
    (a : BitSet) (j : ℕ)
    → IsValid a
    → bit_at (complement_all (last_mask a.length_of) a.bits) j
      ≡ (if ltb j a.length_of then 1 - bit_at a.bits j else 0)
unfolding bit_at complement
not_bits a j v = elim (lt-cases (j / 32) (length a.bits)) [
  | inl h ↦
      ap (λ x. bit x (j % 32)) (word_at-complement_all (last_mask a.length_of) a.bits (j / 32) h)
      ∙ elim (Bool-cases (suc (j / 32) == length a.bits)) [
        | inl e ↦ rw e (
            bit-bit_and (j % 32) _ (last_mask a.length_of)
            ∙ ap₂ min
                (bit-complement 32 (j % 32) (word_at a.bits (j / 32)) (v.small (j / 32))
                  (omega arith))
                (bit-last_mask a.length_of (j % 32) (omega arith))
            ∙ masked (1 - bit (word_at a.bits (j / 32)) (j % 32)) j a.length_of (omega arith)
                (ground (arith, e, v.words)) v.some_bits)
        | inr e ↦ rw e (
            bit-complement 32 (j % 32) (word_at a.bits (j / 32)) (v.small (j / 32)) (omega arith)
            ∙ (let l : ltb j a.length_of ≡ true = ground (arith, e, h, v.words) in rw l refl))
      ]
  | inr h ↦
      ap (λ x. bit x (j % 32))
        (word_at-past (complement_all (last_mask a.length_of) a.bits) (j / 32)
          (omega (arith, h, length-complement_all (last_mask a.length_of) a.bits)))
      ∙ bit-zero (j % 32)
      ∙ (let l : ltb j a.length_of ≡ false = ground (arith, h, v.words) in rw l refl)
]

complement_all-lt :
    (mask : ℕ) (words : List ℕ) (w : ℕ) → word_at (complement_all mask words) w < 2 ^ 32
unfolding complement_all word_at complement
complement_all-lt mask [] w = omega arith
complement_all-lt mask (x ∷ []) zero = bit_and-lt 32 (2 ^ 32 - 1 - x) mask (omega arith)
complement_all-lt mask (x ∷ []) (suc w) = omega arith
complement_all-lt mask (x ∷ y ∷ words) zero = omega arith
complement_all-lt mask (x ∷ y ∷ words) (suc w) = complement_all-lt mask (y ∷ words) w

-- `not` of a valid bit set returns a valid one of the same capacity with every bit below the capacity
-- the other one, and the bits past it 0.
pub not_set-bits :
    (a : BitSet)
    → IsValid a
    → IsValid (not_set a)
      × ((not_set a).length_of ≡ a.length_of)
      × ((j : ℕ)
          → bit_at (not_set a).bits j ≡ (if ltb j a.length_of then 1 - bit_at a.bits j else 0))
unfolding not_set make_from_bits
not_set-bits a v = (
  record {
    some_bits = v.some_bits;
    within = v.within;
    words = length-complement_all (last_mask a.length_of) a.bits ∙ v.words;
    small = complement_all-lt (last_mask a.length_of) a.bits;
    excess = λ j g.
        not_bits a j v ∙ (let l : ltb j a.length_of ≡ false = ground (arith, g) in rw l refl);
  },
  refl,
  λ j. not_bits a j v,
)
