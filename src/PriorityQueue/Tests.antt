-- ===== src/PriorityQueue/Tests.antt =====
-- Runs of the model of src/PriorityQueue.ts, and its theorems at concrete inputs.
use mathlib.Core.List.{Perm}
use vjuga.Base.{
  ℕ, zero, suc, ◌+◌, ◌≤◌, ◌<◌, ◌≡◌, refl, ap, Bool, true, false, [], ◌∷◌, Option, none, some, arith,
  read, ltb, ◌==◌, if◌then◌else◌, ◌||◌,
}
use vjuga.PriorityQueue.{Outcome, returns, throws, PriorityQueue, push, pop, heapify}
use vjuga.PriorityQueue
use vjuga.PriorityQueue.Order.{IsOrder, IsHeap}
use vjuga.PriorityQueue.Calls.{live, Popped, push-IsHeap, pop-Popped, heapify-IsHeap}
use vjuga.PriorityQueue.Atomic.{push_atomic, pop_atomic}

-- numbers in ascending order, behind `undefined`
abbrev below : Option ℕ → Option ℕ → Bool
below none none = false
below none (some b) = true
below (some a) none = false
below (some a) (some b) = ltb a b

abbrev ascending : Option ℕ → Option ℕ → Outcome ℕ Bool
ascending a b = returns (below a b)

ascending-IsOrder : IsOrder ascending below
ascending-IsOrder = record { answers = λ a b. refl; asym = asym; trans = trans }
  where
    asym : (a b : Option ℕ) → below a b ≡ true → below b a ≡ false
    asym none none h = refl
    asym none (some b) h = refl
    asym (some a) none h = cc
    asym (some a) (some b) h = ground arith

    trans : (a b c : Option ℕ) → below b a ≡ false → below c b ≡ false → below c a ≡ false
    trans none none none h k = refl
    trans none none (some c) h k = refl
    trans none (some b) none h k = cc
    trans none (some b) (some c) h k = refl
    trans (some a) none none h k = cc
    trans (some a) none (some c) h k = cc
    trans (some a) (some b) none h k = cc
    trans (some a) (some b) (some c) h k = ground arith

abbrev heap : PriorityQueue ℕ
heap = record { items = some 1 ∷ some 4 ∷ some 7 ∷ some 9 ∷ none ∷ []; size = 4 }

heap-IsHeap : IsHeap below heap
heap-IsHeap = record { within = omega arith; ordered = ordered }
  where
    ordered :
        (c : ℕ)
        → 0 < c
        → c < 4
        → 0 ≤ PriorityQueue.parent c
        → below (read heap.items c) (read heap.items (PriorityQueue.parent c)) ≡ false
    ordered zero h k l = absurd (omega arith)
    ordered (suc zero) h k l = refl
    ordered (suc (suc zero)) h k l = refl
    ordered (suc (suc (suc zero))) h k l = refl
    ordered (suc (suc (suc (suc c)))) h k l = absurd (omega arith)

-- throws error 13 when it meets the number 13
abbrev superstitious : Option ℕ → Option ℕ → Outcome ℕ Bool
superstitious (some a) (some b) = if a == 13 || b == 13 then throws 13 else returns (ltb a b)
superstitious a b = returns false

-- 8 rises above 9; then the comparison with 13 throws
abbrev unlucky : PriorityQueue ℕ
unlucky = record { items = some 13 ∷ some 9 ∷ some 14 ∷ none ∷ []; size = 3 }

push-throws :
    push superstitious unlucky (some 8)
    ≡ (some 13, record { items = some 13 ∷ some 9 ∷ some 14 ∷ none ∷ []; size = 3 })
unfolding push PriorityQueue.sift_up PriorityQueue.end_up PriorityQueue.up_loop
    PriorityQueue.undo_up
push-throws = refl

push-IsHeap_example :
    ((push ascending heap (some 2)).0 ≡ none)
    × IsHeap below (push ascending heap (some 2)).1
    × Perm (live (push ascending heap (some 2)).1) (some 2 ∷ some 1 ∷ some 4 ∷ some 7 ∷ some 9 ∷ [])
    × ((push ascending heap (some 2)).1.size ≡ 4 + 1)
push-IsHeap_example = push-IsHeap ascending-IsOrder heap (some 2) heap-IsHeap

pop-Popped_example : Popped below heap (pop ascending heap)
pop-Popped_example = pop-Popped ascending-IsOrder heap heap-IsHeap (omega arith)

heapify-IsHeap_example :
    ((heapify ascending heap (some 3 ∷ some 2 ∷ some 1 ∷ [])).0 ≡ none)
    × IsHeap below (heapify ascending heap (some 3 ∷ some 2 ∷ some 1 ∷ [])).1
    × Perm
        (live (heapify ascending heap (some 3 ∷ some 2 ∷ some 1 ∷ [])).1)
        (some 3 ∷ some 2 ∷ some 1 ∷ [])
    × ((heapify ascending heap (some 3 ∷ some 2 ∷ some 1 ∷ [])).1.size ≡ 3)
heapify-IsHeap_example = heapify-IsHeap ascending-IsOrder heap (some 3 ∷ some 2 ∷ some 1 ∷ [])

push_atomic_example :
    ((push superstitious unlucky (some 8)).1.size ≡ 3)
    × ((c : ℕ)
        → read (push superstitious unlucky (some 8)).1.items c
          ≡ (if 3 == c then none else read unlucky.items c))
push_atomic_example = push_atomic superstitious unlucky (some 8) 13 (ap (λ r. r.0) push-throws)

abbrev unlucky_pop : PriorityQueue ℕ
unlucky_pop = record {
  items = some 1 ∷ some 2 ∷ some 5 ∷ some 13 ∷ some 8 ∷ some 14 ∷ some 15 ∷ [];
  size = 7;
}

pop-throws : (pop superstitious unlucky_pop).0 ≡ throws 13
unfolding pop PriorityQueue.sift_down PriorityQueue.end_down PriorityQueue.end_pop
    PriorityQueue.down_loop PriorityQueue.smaller_child
pop-throws = refl

pop_atomic_example :
    ((pop superstitious unlucky_pop).1.size ≡ 7)
    × ((c : ℕ) → read (pop superstitious unlucky_pop).1.items c ≡ read unlucky_pop.items c)
pop_atomic_example = pop_atomic superstitious unlucky_pop 13 pop-throws
