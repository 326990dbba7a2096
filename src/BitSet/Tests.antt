-- ===== src/BitSet/Tests.antt =====
-- Runs of src/BitSet.ts, and its theorems at two small bit sets.
use vjuga.Base.{
  ℕ, zero, suc, ◌-◌, ◌/◌, ◌%◌, ◌≤◌, ◌<◌, ◌≡◌, refl, none, some, [], ◌∷◌, ◌==◌, ltb, ◌≢◌, ◌⊎◌,
  if◌then◌else◌, arith, ap, ◌∙◌,
}
use vjuga.Base.Bits.{clz32, bit_length}
use vjuga.BitSet.{
  BitSet, popcount32, word_at, complement, get, popcount, count_loop, last_mask, to_array, extract,
  extract_all, write_all, not_set, complement_all, make_from_bits,
}
use vjuga.BitSet.Words.{bit, bit-zero}
use vjuga.BitSet.Points.{bit_at, IsValid, sets, update, updated, update-get}
use vjuga.BitSet.Total.{count, popcount-count}
use vjuga.BitSet.Algebra.{ors, operate, on_bits, operate-bits, not_set-bits}

abbrev five : BitSet
five = record { bits = 32 ∷ 2 ∷ []; length_of = 40 }

abbrev blank : BitSet
blank = record { bits = 0 ∷ 0 ∷ []; length_of = 40 }

popcount32-full : popcount32 0xffffffff ≡ 32
unfolding popcount32
popcount32-full = refl

popcount-two : popcount five ≡ 2
unfolding popcount popcount32 count_loop last_mask
popcount-two = refl

to_array-two : to_array five ≡ some 5 ∷ some 33 ∷ []
unfolding to_array popcount popcount32 count_loop last_mask extract extract_all write_all clz32
    bit_length
to_array-two = refl

popcount-not_set : popcount (not_set five) ≡ 38
unfolding popcount popcount32 count_loop last_mask not_set complement complement_all make_from_bits
popcount-not_set = refl

zero_words : (w : ℕ) → word_at (0 ∷ 0 ∷ []) w ≡ 0
unfolding word_at
zero_words zero = refl
zero_words (suc zero) = refl
zero_words (suc (suc w)) = refl

blank-IsValid : IsValid blank
unfolding bit_at
blank-IsValid = record {
  some_bits = omega arith;
  within = omega arith;
  words = refl;
  small = λ w. omega (arith, zero_words w);
  excess = λ j h. ap (λ x. bit x (j % 32)) (zero_words (j / 32)) ∙ bit-zero (j % 32);
}

update-get_example :
    ((40 ≤ 33) × (update sets blank 33 ≡ none))
    ⊎ ((33 < 40)
        × ((r : BitSet) × (update sets blank 33 ≡ some r)
            × IsValid r
            × (r.length_of ≡ 40)
            × ((j : ℕ)
                → get r j ≡ (
                    if j == 33
                    then some (updated sets (bit_at blank.bits 33) == 1)
                    else get blank j))))
update-get_example = update-get sets blank 33 blank-IsValid

operate-bits_example :
    ((blank.length_of ≢ blank.length_of) × (operate ors blank blank ≡ none))
    ⊎ ((blank.length_of ≡ blank.length_of)
        × ((r : BitSet) × (operate ors blank blank ≡ some r)
            × IsValid r
            × (r.length_of ≡ 40)
            × ((j : ℕ)
                → bit_at r.bits j ≡ on_bits ors (bit_at blank.bits j) (bit_at blank.bits j))))
operate-bits_example = operate-bits ors blank blank blank-IsValid blank-IsValid

not_set-bits_example :
    IsValid (not_set blank)
    × ((not_set blank).length_of ≡ 40)
    × ((j : ℕ) → bit_at (not_set blank).bits j ≡ (if ltb j 40 then 1 - bit_at blank.bits j else 0))
not_set-bits_example = not_set-bits blank blank-IsValid

popcount-count_example : popcount blank ≡ count (bit_at blank.bits) 40
popcount-count_example = popcount-count blank blank-IsValid
