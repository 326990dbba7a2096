-- ===== src/BitSet.antt =====
-- src/BitSet.ts: a bit array in 32-bit words. A word is its number below 2 ^ 32, and `~` of it is taken
-- from the mask of 32 ones, as the array of words stores it. A capacity or an index is a natural
-- number; a call that throws its `RangeError` is `none`.
pub mod Words
pub mod Points
pub mod Algebra
pub mod Count
pub mod Total
mod Tests
use Prim.Native.Nat.{bit_and, bit_or, bit_xor}
use vjuga.Base.Bits.{clz32}
use vjuga.Base.{
  ℕ, zero, suc, ◌+◌, ◌-◌, ◌*◌, ◌/◌, ◌%◌, ◌^◌, Bool, true, false, Option, none, some, List, [], ◌∷◌,
  ◌++◌, ◌==◌, ltb, leb, if◌then◌else◌, length,
}

pub record BitSet : Type 0 where
  pub bits : List ℕ
  pub length_of : ℕ

unfoldable pub popcount32 : ℕ → ℕ
popcount32 v =
    let a = v - bit_and (v / 2) 0x55555555 in
    let b = bit_and a 0x33333333 + bit_and (a / 4) 0x33333333 in
    bit_and (b + b / 16) 0x0f0f0f0f * 0x01010101 % 2 ^ 32 / 2 ^ 24

-- `new Uint32Array(n)`
unfoldable pub zeros : ℕ → List ℕ
zeros zero = []
zeros (suc n) = 0 ∷ zeros n

unfoldable pub make : ℕ → Option BitSet
make capacity =
    if ltb capacity 1
    then none
    else (if leb (2 ^ 31) capacity
        then none
        else some (record { bits = zeros ((capacity + 31) / 32); length_of = capacity }))

unfoldable pub check_bounds : BitSet → ℕ → Bool
check_bounds bs i = if leb bs.length_of i then false else ltb i (2 ^ 31)

-- `words[w] = f(words[w])`
unfoldable pub modify : (ℕ → ℕ) → List ℕ → ℕ → List ℕ
modify f [] w = []
modify f (x ∷ words) zero = f x ∷ words
modify f (x ∷ words) (suc w) = x ∷ modify f words w

unfoldable pub word_at : List ℕ → ℕ → ℕ
word_at [] w = 0
word_at (x ∷ words) zero = x
word_at (x ∷ words) (suc w) = word_at words w

-- `~`
unfoldable pub complement : ℕ → ℕ
complement x = 2 ^ 32 - 1 - x

unfoldable pub set : BitSet → ℕ → Option BitSet
set bs i =
    if check_bounds bs i
    then some (record bs { bits = modify (λ x. bit_or x (2 ^ bit_and i 31)) bs.bits (i / 2 ^ 5) })
    else none

unfoldable pub clear : BitSet → ℕ → Option BitSet
clear bs i =
    if check_bounds bs i
    then some (record bs {
      bits = modify (λ x. bit_and x (complement (2 ^ bit_and i 31))) bs.bits (i / 2 ^ 5);
    })
    else none

unfoldable pub toggle : BitSet → ℕ → Option BitSet
toggle bs i =
    if check_bounds bs i
    then some (record bs { bits = modify (λ x. bit_xor x (2 ^ bit_and i 31)) bs.bits (i / 2 ^ 5) })
    else none

unfoldable pub get : BitSet → ℕ → Option Bool
get bs i =
    if check_bounds bs i
    then some (bit_and (word_at bs.bits (i / 2 ^ 5) / 2 ^ bit_and i 31) 1 == 1)
    else none

unfoldable pub capacity : BitSet → ℕ
capacity bs = bs.length_of

-- the mask of the bits of the last word that a capacity uses
unfoldable pub last_mask : ℕ → ℕ
last_mask n = let rem = bit_and n 31 in if rem == 0 then 2 ^ 32 - 1 else 2 ^ rem - 1

unfoldable pub count_loop : ℕ → List ℕ → ℕ
count_loop mask [] = 0
count_loop mask (x ∷ []) = popcount32 (bit_and x mask)
count_loop mask (x ∷ y ∷ words) = popcount32 x + count_loop mask (y ∷ words)

unfoldable pub popcount : BitSet → ℕ
popcount bs = count_loop (last_mask bs.length_of) bs.bits

-- the inner loop of `toArray`: each round clears the lowest bit of the word
unfoldable pub extract : ℕ → ℕ → ℕ → List ℕ
extract zero base word = []
extract (suc fuel) base word =
    let lsb = bit_and word (2 ^ 32 - word) in
    let rest = extract fuel base (bit_xor word lsb) in
    if word == 0 then [] else (base + (31 - clz32 lsb)) ∷ rest

unfoldable pub extract_all : ℕ → ℕ → List ℕ → List ℕ
extract_all mask w [] = []
extract_all mask w (x ∷ []) = extract 32 (w * 2 ^ 5) (bit_and x mask)
extract_all mask w (x ∷ y ∷ words) =
    extract 32 (w * 2 ^ 5) x ++ extract_all mask (w + 1) (y ∷ words)

-- an array of `n` holes with the elements written from 0 on
unfoldable pub write_all : ℕ → List ℕ → List (Option ℕ)
write_all zero [] = []
write_all zero (x ∷ xs) = some x ∷ write_all zero xs
write_all (suc n) [] = none ∷ write_all n []
write_all (suc n) (x ∷ xs) = some x ∷ write_all n xs

unfoldable pub to_array : BitSet → List (Option ℕ)
to_array bs = write_all (popcount bs) (extract_all (last_mask bs.length_of) 0 bs.bits)

unfoldable pub check_same_capacity : BitSet → BitSet → Bool
check_same_capacity a b = a.length_of == b.length_of

-- `rc[w] = f(ra[w], rb[w])`; a read past the end of `rb` is `undefined`, which the operators take for 0
unfoldable pub combine : (ℕ → ℕ → ℕ) → List ℕ → List ℕ → List ℕ
combine f [] rb = []
combine f (x ∷ ra) [] = f x 0 ∷ combine f ra []
combine f (x ∷ ra) (y ∷ rb) = f x y ∷ combine f ra rb

unfoldable pub make_from_bits : ℕ → List ℕ → BitSet
make_from_bits capacity bits = record { bits = bits; length_of = capacity }

unfoldable pub and : BitSet → BitSet → Option BitSet
and a b =
    if check_same_capacity a b
    then some (make_from_bits a.length_of (combine bit_and a.bits b.bits))
    else none

unfoldable pub or : BitSet → BitSet → Option BitSet
or a b =
    if check_same_capacity a b
    then some (make_from_bits a.length_of (combine bit_or a.bits b.bits))
    else none

unfoldable pub xor : BitSet → BitSet → Option BitSet
xor a b =
    if check_same_capacity a b
    then some (make_from_bits a.length_of (combine bit_xor a.bits b.bits))
    else none

-- the loop of `not`, and the mask of the last word
unfoldable pub complement_all : ℕ → List ℕ → List ℕ
complement_all mask [] = []
complement_all mask (x ∷ []) = bit_and (complement x) mask ∷ []
complement_all mask (x ∷ y ∷ words) = complement x ∷ complement_all mask (y ∷ words)

unfoldable pub not_set : BitSet → BitSet
not_set a = make_from_bits a.length_of (complement_all (last_mask a.length_of) a.bits)
