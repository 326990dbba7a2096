-- ===== src/BufferizedFunction/Tests.antt =====
-- Runs of src/BufferizedFunction.ts with numbers, and its theorem there.
use vjuga.Base.{ℕ, ◌≡◌, refl, List, [], ◌∷◌, ◌++◌, ◌⊎◌}
use vjuga.BufferizedFunction.{make, schedule, bufferized_fn, worker}
use vjuga.BufferizedFunction.Delivery.{Event, calls, fires, run, arguments, run-Delivered}

abbrev events : List (Event ℕ)
events = calls (1 ∷ []) ∷ calls (2 ∷ 3 ∷ []) ∷ fires ∷ calls (4 ∷ []) ∷ []

-- the batch of the timer, and what is left
two_calls : ((run make events).0 ≡ 1 ∷ 2 ∷ 3 ∷ []) × ((run make events).1.queue ≡ 4 ∷ [])
unfolding run make bufferized_fn schedule worker
two_calls = (refl, refl)

run-Delivered_example :
    ((run make events).0 ++ (run make events).1.queue ≡ arguments events)
    × (((run make events).1.queue ≡ []) ⊎ ((run make events).1.timers ≡ 1))
run-Delivered_example = run-Delivered events
