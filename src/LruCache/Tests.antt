-- ===== src/LruCache/Tests.antt =====
-- Runs of src/LRUCache.ts with numbers as keys, and its theorems there.
use vjuga.Base.{ℕ, ◌≡◌, refl, Bool, true, false, none, some, List, [], ◌∷◌, ◌==◌, arith}
use vjuga.LruCache.{
  LruCache, make, new_cache, slots_to, get, get_at, set, set_at, set_new, store_at, evict, has,
  has_at, del, del_at, detach, insert_after_sentinel,
}
use vjuga.LruCache.Calls.{
  Call, get_call, set_call, has_call, del_call, size_call, value, done, yes_no, number, run, call,
  list_run, calls_refine,
}

-- `Map`'s equality of numbers
abbrev same : ℕ → ℕ → Bool
same a b = a == b

same_eq : (a b : ℕ) → same a b ≡ true → a ≡ b
same_eq a b h = ground (arith, h)

same_refl : (a : ℕ) → same a a ≡ true
same_refl a = ground arith

abbrev new : LruCache ℕ ℕ
new = new_cache 2

new_made : make 2 ≡ some new
unfolding make
new_made = refl

-- 2 ^ 31 - 1 is the largest capacity: `| 0` turns the next one into a negative number
largest : make 2147483647 ≡ some (new_cache {K = ℕ} {V = ℕ} 2147483647)
unfolding make
largest = refl

too_large : make {K = ℕ} {V = ℕ} 2147483648 ≡ none
unfolding make
too_large = refl

abbrev calls : List (Call ℕ ℕ)
calls =
    set_call 1 10
    ∷ set_call 2 20
    ∷ get_call 1
    ∷ set_call 3 30
    ∷ has_call 2
    ∷ del_call 1
    ∷ size_call
    ∷ []

-- the third `set` evicts 2, which `get` has left least recently used
evicts :
    run same same_eq same_refl new calls
    ≡ done ∷ done ∷ value (some 10) ∷ done ∷ yes_no false ∷ yes_no true ∷ number 1 ∷ []
unfolding run call get get_at set set_at set_new store_at evict has has_at del del_at detach
    insert_after_sentinel new_cache slots_to
evicts = refl

calls_refine_example :
    run same same_eq same_refl new calls ≡ list_run same same_eq same_refl 2 [] calls
calls_refine_example = calls_refine same same_eq same_refl 2 new calls new_made
