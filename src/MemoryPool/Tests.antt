-- ===== src/MemoryPool/Tests.antt =====
-- Runs of src/MemoryPool.ts with a factory that counts, and its theorems there.
use vjuga.Base.{
  ℕ, suc, ◌+◌, ◌≤◌, ◌<◌, ◌≡◌, refl, Option, none, some, List, [], ◌∷◌, length, arith, ap, sym,
}
use vjuga.Base.Int.{pos, ◌+ℤ◌, ◌-ℤ◌}
use vjuga.MemoryPool.{
  thrown, with_acquire, MemoryPool, Outcome, returns, throws, make, fill_loop, end_make, acquire,
  acquire_from, end_acquire, release, end_release, run_reset, Answer, thenable, promise,
  release_on_settle, call_with, end_call,
}
use vjuga.Base.Counts.{occurs, remove}
use vjuga.MemoryPool.Held.{Run, done, more, took, gave}
use vjuga.MemoryPool.Borrow.{with_acquire-settled}
use vjuga.MemoryPool.Exclusive.{run_exclusive}

-- the world is the next object's number
abbrev counter : ℕ → Outcome ℕ ℕ × ℕ
counter w = (returns w, suc w)

abbrev no_reset : Option (ℕ → ℕ → Option ℕ × ℕ)
no_reset = none

abbrev made : MemoryPool
made = record { max_size = 2; free_list = 0 ∷ []; acquired_count = pos 0 }

abbrev after : MemoryPool
after = record { max_size = 2; free_list = 0 ∷ []; acquired_count = pos 1 }

two : Run counter no_reset made 1 [] after 2 (1 ∷ [])
unfolding acquire acquire_from end_acquire release end_release run_reset ◌+ℤ◌ ◌-ℤ◌ remove occurs
two = more (took 0 refl) (more (took 1 refl) (more (gave 0 none (omega arith) refl) done))

made_it : make counter (some 2) (some 1) 0 ≡ (returns made, 1)
unfolding make fill_loop end_make
made_it = refl

abbrev value : Outcome ℕ ℕ → ℕ
value (returns x) = x
value (throws e) = 0

new : (w v x : ℕ) → counter w ≡ (returns x, v) → ((x < w) → ⊥) × (x < v)
new w v x e = omega (arith, ap (λ o. o.1) e, ap (λ o. value o.0) e)

abbrev in_use : List ℕ
in_use = 1 ∷ []

run_exclusive_example :
    ((x : ℕ) → occurs x after.free_list + occurs x in_use ≤ 1)
    × (length after.free_list + length in_use ≤ after.max_size)
    × (after.acquired_count ≡ pos (length in_use))
unfolding run_reset
run_exclusive_example =
    run_exclusive counter no_reset (λ w x. x < w) new (λ w y h. omega (arith, h)) (λ w x y h. h)
      (some 2) (some 1) made after 0 1 2 (1 ∷ []) made_it two

-- a borrower that throws, and one that is asynchronous
abbrev failing : ℕ → MemoryPool → ℕ → Outcome ℕ (Answer ℕ) × MemoryPool × ℕ
failing x p w = (throws (thrown 7), p, w)

abbrev waiting : ℕ → MemoryPool → ℕ → Outcome ℕ (Answer ℕ) × MemoryPool × ℕ
waiting x p w = (returns thenable, p, w)

lent_one :
    with_acquire counter no_reset waiting made 1
    ≡ (returns (promise 0), record { max_size = 2; free_list = []; acquired_count = pos 1 }, 1)
unfolding with_acquire acquire acquire_from call_with end_call ◌+ℤ◌
lent_one = refl

abbrev lent : MemoryPool
lent = record { max_size = 2; free_list = []; acquired_count = pos 1 }

with_acquire-settled_example :
    (release_on_settle {R = ℕ} no_reset 0 (throws (thrown 7)) lent 1).1.acquired_count
    ≡ made.acquired_count
with_acquire-settled_example =
    with_acquire-settled counter no_reset waiting (λ x p w. refl) made 1 0 (throws (thrown 7)) lent
      1 (ap (λ o. o.0) lent_one) (sym (ap (λ o. o.1.acquired_count) lent_one))
