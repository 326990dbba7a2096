-- ===== src/BitSet/Points.antt =====
-- `set`, `clear`, `toggle` and `get` of src/BitSet.ts: the bits they change, and no others.
use Prim.Native.Nat.{bit_and, bit_or, bit_xor, differ}
use vjuga.Base.{
  ℕ, zero, suc, ◌+◌, ◌-◌, ◌/◌, ◌%◌, ◌^◌, ◌≤◌, ◌<◌, min, max, ◌≡◌, refl, Bool, true, false, Option,
  none, some, List, [], ◌∷◌, ◌==◌, ltb, leb, if◌then◌else◌, length, arith, ap, sym, ◌∙◌, subst, ◌⊎◌,
  inl, inr, Bool-cases, lt-cases,
}
use vjuga.Base.Bits.{bit_and-mask, pow_mono, pow_double, pow_pos}
use vjuga.BitSet.{
  BitSet, modify, word_at, complement, check_bounds, set, clear, toggle, get, zeros, make,
}
use vjuga.BitSet.Words.{
  bit, bit-bit_and, bit-bit_or, bit-bit_xor, bit-lt, bit-one, bit-complement, bit-shift, bit-zero,
  bit_and-lt, bit_or-lt, bit_xor-lt,
}

-- the bit of a number in the words
unfoldable pub bit_at : List ℕ → ℕ → ℕ
bit_at words j = bit (word_at words (j / 32)) (j % 32)

-- as many words as the capacity needs, each of 32 bits, with the bits past the capacity 0
pub record IsValid (bs : BitSet) : Type 0 where
  pub some_bits : 1 ≤ bs.length_of
  pub within : bs.length_of < 2 ^ 31
  pub words : length bs.bits ≡ (bs.length_of + 31) / 32
  pub small : (w : ℕ) → word_at bs.bits w < 2 ^ 32
  pub excess : (j : ℕ) → bs.length_of ≤ j → bit_at bs.bits j ≡ 0

word_at-modify :
    (f : ℕ → ℕ) (words : List ℕ) (w v : ℕ)
    → w < length words
    → word_at (modify f words w) v ≡ (if v == w then f (word_at words w) else word_at words v)
unfolding modify word_at
word_at-modify f [] w v h = absurd (omega (arith, h))
word_at-modify f (x ∷ words) zero zero h = ground arith
word_at-modify f (x ∷ words) zero (suc v) h = ground arith
word_at-modify f (x ∷ words) (suc w) zero h = ground arith
word_at-modify f (x ∷ words) (suc w) (suc v) h =
    word_at-modify f words w v (omega (arith, h)) ∙ ground arith

length-modify : (f : ℕ → ℕ) (words : List ℕ) (w : ℕ) → length (modify f words w) ≡ length words
unfolding modify
length-modify f [] w = refl
length-modify f (x ∷ words) zero = refl
length-modify f (x ∷ words) (suc w) = ap suc (length-modify f words w)

word-low : (i : ℕ) → bit_and i 31 ≡ i % 32
word-low i = bit_and-mask 5 i

pub data Update : Type 0 where
  sets clears toggles : Update

unfoldable pub update : Update → BitSet → ℕ → Option BitSet
update sets = set
update clears = clear
update toggles = toggle

-- what the bit becomes
unfoldable pub updated : Update → ℕ → ℕ
updated sets b = 1
updated clears b = 0
updated toggles b = 1 - b

-- what is done to the word
change : Update → ℕ → ℕ → ℕ
change sets k x = bit_or x (2 ^ k)
change clears k x = bit_and x (complement (2 ^ k))
change toggles k x = bit_xor x (2 ^ k)

max-flag : (b : ℕ) (t : Bool) → b < 2 → max b (if t then 1 else 0) ≡ (if t then 1 else b)
max-flag b true h = omega (arith, h)
max-flag b false h = omega (arith, h)

min-flag : (b : ℕ) (t : Bool) → b < 2 → min b (1 - (if t then 1 else 0)) ≡ (if t then 0 else b)
min-flag b true h = omega (arith, h)
min-flag b false h = omega (arith, h)

differ-flag : (b : ℕ) (t : Bool) → b < 2 → differ b (if t then 1 else 0) ≡ (if t then 1 - b else b)
differ-flag zero true h = refl
differ-flag zero false h = refl
differ-flag (suc zero) true h = refl
differ-flag (suc zero) false h = refl
differ-flag (suc (suc b)) t h = absurd (omega (arith, h))

one-lt : (k : ℕ) → k < 32 → 2 ^ k < 2 ^ 32
one-lt k h = omega (arith, pow_mono (suc k) 32 h, pow_double k, pow_pos k)

bit-change :
    (u : Update) (k x m : ℕ)
    → k < 32
    → m < 32
    → bit (change u k x) m ≡ (if m == k then updated u (bit x k) else bit x m)
unfolding change updated complement
bit-change sets k x m h g =
    bit-bit_or m x (2 ^ k)
    ∙ ap (max (bit x m)) (bit-one m k)
    ∙ max-flag (bit x m) (m == k) (bit-lt x m)
bit-change clears k x m h g =
    bit-bit_and m x (2 ^ 32 - 1 - 2 ^ k)
    ∙ ap (min (bit x m))
        (bit-complement 32 m (2 ^ k) (one-lt k h) g ∙ ap (λ b. 1 - b) (bit-one m k))
    ∙ min-flag (bit x m) (m == k) (bit-lt x m)
bit-change toggles k x m h g =
    bit-bit_xor m x (2 ^ k)
    ∙ ap (differ (bit x m)) (bit-one m k)
    ∙ differ-flag (bit x m) (m == k) (bit-lt x m)
    ∙ same_bit
  where
    same_bit : (if m == k then 1 - bit x m else bit x m) ≡ (if m == k then 1 - bit x k else bit x m)
    same_bit = elim (Bool-cases (m == k)) [
      | inl e ↦ rw e (let f : m ≡ k = ground (arith, e) in ap (λ z. 1 - bit x z) f)
      | inr e ↦ rw e refl
    ]

change-lt : (u : Update) (k x : ℕ) → k < 32 → x < 2 ^ 32 → change u k x < 2 ^ 32
unfolding change
change-lt sets k x h g = bit_or-lt 32 x (2 ^ k) g (one-lt k h)
change-lt clears k x h g = bit_and-lt 32 x _ g
change-lt toggles k x h g = bit_xor-lt 32 x (2 ^ k) g (one-lt k h)

-- the words after an update of the bit `i`
changed : Update → List ℕ → ℕ → List ℕ
changed u words i = modify (change u (i % 32)) words (i / 32)

changed-bits :
    (u : Update) (words : List ℕ) (i j : ℕ)
    → i / 32 < length words
    → bit_at (changed u words i) j ≡ (if j == i then updated u (bit_at words i) else bit_at words j)
unfolding changed bit_at
changed-bits u words i j h =
    ap (λ x. bit x (j % 32)) (word_at-modify (change u (i % 32)) words (i / 32) (j / 32) h)
    ∙ elim (Bool-cases (j / 32 == i / 32)) [
      | inl e ↦ rw e (
          bit-change u (i % 32) (word_at words (i / 32)) (j % 32) (omega arith) (omega arith)
          ∙ in_word (ground (arith, e)))
      | inr e ↦ rw e (
          ap
            (λ t.
              if t
              then updated u (bit (word_at words (i / 32)) (i % 32))
              else bit (word_at words (j / 32)) (j % 32))
            (sym (apart e)))
    ]
  where
    in_word :
        j / 32 ≡ i / 32
        → (if j % 32 == i % 32
            then updated u (bit (word_at words (i / 32)) (i % 32))
            else bit (word_at words (i / 32)) (j % 32))
          ≡ (if j == i
              then updated u (bit (word_at words (i / 32)) (i % 32))
              else bit (word_at words (j / 32)) (j % 32))
    in_word f =
        let t : (j % 32 == i % 32) ≡ (j == i) = ground (arith, f) in
        ap
          (λ t.
            if t
            then updated u (bit (word_at words (i / 32)) (i % 32))
            else bit (word_at words (i / 32)) (j % 32))
          t
        ∙ ap
            (λ w.
              if j == i
              then updated u (bit (word_at words (i / 32)) (i % 32))
              else bit (word_at words w) (j % 32))
            (sym f)

    apart : (j / 32 == i / 32) ≡ false → (j == i) ≡ false
    apart e = ground (arith, e)

update-some :
    (u : Update) (bs : BitSet) (i : ℕ)
    → check_bounds bs i ≡ true
    → update u bs i ≡ some (record bs { bits = changed u bs.bits i })
unfolding update set clear toggle changed change
update-some sets bs i h = rw (h, word-low i) refl
update-some clears bs i h = rw (h, word-low i) refl
update-some toggles bs i h = rw (h, word-low i) refl

update-none : (u : Update) (bs : BitSet) (i : ℕ) → check_bounds bs i ≡ false → update u bs i ≡ none
unfolding update set clear toggle
update-none sets bs i h = rw h refl
update-none clears bs i h = rw h refl
update-none toggles bs i h = rw h refl

changed-IsValid :
    (u : Update) (bs : BitSet) (i : ℕ)
    → i < bs.length_of
    → IsValid bs
    → IsValid (record bs { bits = changed u bs.bits i })
unfolding changed
changed-IsValid u bs i h v = record {
  some_bits = v.some_bits;
  within = v.within;
  words = length-modify (change u (i % 32)) bs.bits (i / 32) ∙ v.words;
  small = λ w. small w;
  excess = λ j g. changed-bits u bs.bits i j room ∙ past j g;
}
  where
    room : i / 32 < length bs.bits
    room = omega (arith, h, v.words)

    small : (w : ℕ) → word_at (changed u bs.bits i) w < 2 ^ 32
    small w =
        subst (λ z. z < 2 ^ 32) (sym (word_at-modify (change u (i % 32)) bs.bits (i / 32) w room))
          (elim (Bool-cases (w == i / 32)) [
            | inl e ↦ rw e (change-lt u (i % 32) _ (omega arith) (v.small (i / 32)))
            | inr e ↦ rw e (v.small w)
          ])

    past :
        (j : ℕ)
        → bs.length_of ≤ j
        → (if j == i then updated u (bit_at bs.bits i) else bit_at bs.bits j) ≡ 0
    past j g = let e : (j == i) ≡ false = ground (arith, h, g) in rw e (v.excess j g)

bounds_iff : (bs : BitSet) (i : ℕ) → IsValid bs → check_bounds bs i ≡ ltb i bs.length_of
unfolding check_bounds
bounds_iff bs i v = ground (arith, v.within)

pub get-bit_at :
    (bs : BitSet) (i : ℕ)
    → IsValid bs
    → get bs i ≡ (if ltb i bs.length_of then some (bit_at bs.bits i == 1) else none)
unfolding get bit_at
get-bit_at bs i v =
    rw (bounds_iff bs i v, word-low i, bit-shift (word_at bs.bits (i / 32)) (i % 32)) refl

-- On a valid bit set, `set`, `clear` and `toggle` of an index below the capacity return a valid bit set of the same
-- capacity in which that bit is 1, 0, or the other one, and `get` of any other index answers as before;
-- at an index from the capacity on they throw.
pub update-get :
    (u : Update) (bs : BitSet) (i : ℕ)
    → IsValid bs
    → ((bs.length_of ≤ i) × (update u bs i ≡ none))
      ⊎ ((i < bs.length_of)
          × ((r : BitSet) × (update u bs i ≡ some r)
              × IsValid r
              × (r.length_of ≡ bs.length_of)
              × ((j : ℕ)
                  → get r j
                    ≡ (if j == i then some (updated u (bit_at bs.bits i) == 1) else get bs j))))
update-get u bs i v = elim (lt-cases i bs.length_of) [
  | inr h ↦ inl (h, update-none u bs i (bounds_iff bs i v ∙ ground (arith, h)))
  | inl h ↦
      let r : BitSet = record bs { bits = changed u bs.bits i } in
      let valid = changed-IsValid u bs i h v in
      inr (
        h,
        (
          r,
          update-some u bs i (bounds_iff bs i v ∙ ground (arith, h)),
          valid,
          refl,
          λ j. get-bit_at r j valid ∙ reads h j,
        ),
      )
]
  where
    reads :
        i < bs.length_of
        → (j : ℕ)
        → (if ltb j bs.length_of then some (bit_at (changed u bs.bits i) j == 1) else none)
          ≡ (if j == i then some (updated u (bit_at bs.bits i) == 1) else get bs j)
    reads h j =
        let room : i / 32 < length bs.bits = omega (arith, h, v.words) in
        elim (Bool-cases (j == i)) [
          | inl e ↦
              let inside : ltb j bs.length_of ≡ true = ground (arith, e, h) in
              rw (inside, changed-bits u bs.bits i j room, e) refl
          | inr e ↦ rw (changed-bits u bs.bits i j room, e) (sym (get-bit_at bs j v))
        ]

word_at-zeros : (n w : ℕ) → word_at (zeros n) w ≡ 0
unfolding zeros word_at
word_at-zeros zero w = refl
word_at-zeros (suc n) zero = refl
word_at-zeros (suc n) (suc w) = word_at-zeros n w

length-zeros : (n : ℕ) → length (zeros n) ≡ n
unfolding zeros
length-zeros zero = refl
length-zeros (suc n) = ap suc (length-zeros n)

-- `make` returns a valid bit set of the capacity with every bit 0 if the capacity is from 1 to
-- 2 ^ 31 - 1, and throws for any other.
pub make-bits :
    (n : ℕ)
    → (((n ≡ 0) ⊎ (2 ^ 31 ≤ n)) × (make n ≡ none))
      ⊎ ((1 ≤ n)
          × (n < 2 ^ 31)
          × ((r : BitSet) × (make n ≡ some r)
              × IsValid r
              × (r.length_of ≡ n)
              × ((j : ℕ) → bit_at r.bits j ≡ 0)))
unfolding make
make-bits n = elim (lt-cases n 1) [
  | inl h ↦ inl (inl (omega (arith, h)), too_small h)
  | inr h ↦ elim (lt-cases n (2 ^ 31)) [
    | inl g ↦ inr (h, g, (made, accepted h g, valid h g, refl, blank))
    | inr g ↦ inl (inr g, too_large h g)
  ]
]
  where
    made : BitSet
    made = record { bits = zeros ((n + 31) / 32); length_of = n }

    blank : (j : ℕ) → bit_at (zeros ((n + 31) / 32)) j ≡ 0
    blank j =
        unfold bit_at in
        ap (λ x. bit x (j % 32)) (word_at-zeros ((n + 31) / 32) (j / 32)) ∙ bit-zero (j % 32)

    tried : Option BitSet
    tried = if ltb n 1 then none else (if leb (2 ^ 31) n then none else some made)

    too_small : n < 1 → tried ≡ none
    too_small h = let e : ltb n 1 ≡ true = ground (arith, h) in rw e refl

    too_large : 1 ≤ n → 2 ^ 31 ≤ n → tried ≡ none
    too_large h k =
        let e : ltb n 1 ≡ false = ground (arith, h) in
        let g : leb (2 ^ 31) n ≡ true = ground (arith, k) in rw (e, g) refl

    accepted : 1 ≤ n → n < 2 ^ 31 → tried ≡ some made
    accepted h k =
        let e : ltb n 1 ≡ false = ground (arith, h) in
        let g : leb (2 ^ 31) n ≡ false = ground (arith, k) in rw (e, g) refl

    valid : 1 ≤ n → n < 2 ^ 31 → IsValid made
    valid h k = record {
      some_bits = h;
      within = k;
      words = length-zeros ((n + 31) / 32);
      small = λ w. subst (λ z. z < 2 ^ 32) (sym (word_at-zeros ((n + 31) / 32) w)) (omega arith);
      excess = λ j g. blank j;
    }
