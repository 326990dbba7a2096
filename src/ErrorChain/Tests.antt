-- ===== src/ErrorChain/Tests.antt =====
-- Tests of the walks of src/ErrorChain.ts: a chain that comes back, and one that ends.
use vjuga.Base.{
  ℕ, zero, suc, ◌≡◌, refl, Bool, true, Option, none, some, List, [], if◌then◌else◌, ◌∷◌, ltb, arith,
}
use vjuga.ErrorChain.{
  chain, to_array, find, array_loop, distinct_count, meet_loop, advance, yield_loop, find_loop,
  distinct_length, length_loop,
}
use vjuga.ErrorChain.Orbit.{path, IsLap}
use vjuga.ErrorChain.Walk.{IsFinite, to_array-IsLap}
use vjuga.ErrorChain.Search.{chain-to_array, IsFirst, find-IsFirst}

-- 0, 1, 2, and 1 again
abbrev returning : ℕ → Option ℕ
returning zero = some 1
returning (suc zero) = some 2
returning (suc (suc zero)) = some 1
returning (suc (suc (suc n))) = none

abbrev ending : ℕ → Option ℕ
ending zero = some 1
ending (suc n) = none

returning-IsFinite : IsFinite returning 0 2
unfolding path
returning-IsFinite = record {
  i = 1;
  d = 2;
  steps = omega arith;
  again = refl;
  within_i = omega arith;
  within_d = omega arith;
}

-- the object 0 is of this realm, or of another one
abbrev all_own : ℕ → Bool
all_own e = true

abbrev foreign_root : ℕ → Bool
foreign_root e = ltb 0 e

to_array-returning : to_array returning all_own 16 0 ≡ some (0 ∷ 1 ∷ 2 ∷ [])
unfolding to_array array_loop distinct_count meet_loop advance
to_array-returning = refl

to_array-ending : to_array ending all_own 16 0 ≡ some (0 ∷ 1 ∷ [])
unfolding to_array array_loop distinct_count meet_loop advance
to_array-ending = refl

to_array-foreign : to_array ending foreign_root 16 0 ≡ some []
unfolding to_array array_loop
to_array-foreign = refl

-- the generator does not stop at a root of another realm that has a cause of this one
chain-foreign : chain ending 16 0 ≡ some (0 ∷ 1 ∷ [])
unfolding chain distinct_length length_loop yield_loop
chain-foreign = refl

find-returning : find returning all_own (λ e. ltb 1 e) 16 0 ≡ some (some 2)
unfolding find find_loop
find-returning = refl

find-nothing : find returning all_own (λ e. ltb 2 e) 16 0 ≡ some none
unfolding find find_loop
find-nothing = refl

to_array-IsLap_example :
    (n : ℕ) × (to_array returning all_own 16 0 ≡ some (yield_loop returning n (some 0)))
    × IsLap returning 0 n
to_array-IsLap_example = to_array-IsLap returning 0 2 returning-IsFinite all_own refl

chain-to_array_example :
    (to_array returning foreign_root 16 0
      ≡ (if foreign_root 0 then chain returning 16 0 else some []))
    × ((rest : List ℕ) × (chain returning 16 0 ≡ some (0 ∷ rest)))
chain-to_array_example = chain-to_array returning 0 2 returning-IsFinite foreign_root

find-IsFirst_example :
    (x : Option ℕ) × (find returning all_own (λ e. ltb 1 e) 16 0 ≡ some x)
    × IsFirst (λ e. ltb 1 e) returning 0 x
find-IsFirst_example = find-IsFirst (λ e. ltb 1 e) returning 0 2 returning-IsFinite all_own refl
