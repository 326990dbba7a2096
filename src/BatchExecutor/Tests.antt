-- ===== src/BatchExecutor/Tests.antt =====
-- Runs of src/BatchExecutor.ts with numbers, and its theorems there.
use vjuga.Base.{
  ℕ, ◌*◌, ◌≡◌, ◌≤◌, refl, Option, none, some, List, [], ◌∷◌, arith, ltb, if◌then◌else◌, get_elem?,
  length,
}
use vjuga.Base.Counts.{occurs}
use vjuga.BufferizedFunction.{bufferized_fn, schedule, worker}
use vjuga.BufferizedFunction
use vjuga.BatchExecutor.{
  integer, undefined, Request, fulfilled, Item, value, unreadable, Outcome, returned, Executor,
  make_limited, request, fire, pump, pump_loop, start, take_chunk, take_loop, release, run_chunk,
  settle_each,
}
use vjuga.BatchExecutor.Settling.{ids, promises_of, outcome_at, run_chunk-outcomes}
use vjuga.BatchExecutor.Steps.{Reach, new, later, requests, turns, fires, Good, Reach-Good}
use vjuga.BatchExecutor.Unlimited.{
  limits, limited, make, choose_path, AtMost, IsUnbounded, BatchesAtMost, make-obeyed,
  make_unlimited, call, invoke, settle,
}
use vjuga.BatchExecutor.Matching.{
  Event, calls, run_unlimited, step_unlimited, run_limited, run_unlimited-run_limited,
}
use vjuga.BatchExecutor.Matching
use vjuga.BatchExecutor.Ending.{remaining, finish, IsQuiet, finish-settled, turn, stop, Turns-bound}

abbrev two : Option ℕ
two = some 2

abbrev one : Option ℕ
one = some 1

abbrev called : Executor ℕ ℕ ℕ
called = request (request (request make_limited 10) 20) 30

abbrev called-Reach : Reach two one called
called-Reach = later (later (later new (requests _ 10)) (requests _ 20)) (requests _ 30)

abbrev doubled : List (Request ℕ) → List (Item ℕ ℕ)
doubled [] = []
doubled (a ∷ args) = value (a.arg * 2) ∷ doubled args

abbrev answer : List (Request ℕ) → Outcome ℕ ℕ
answer args = returned (doubled args)

-- one invocation of two requests runs, and the third request waits
one_waits : ((fire two one called).in_flight ≡ 1) × ((fire two one called).queued ≡ 1)
unfolding fire pump pump_loop start take_chunk take_loop request make_limited bufferized_fn schedule
    worker BufferizedFunction.make
one_waits = (refl, refl)

all_doubled :
    (finish two one answer 4 called).settled
    ≡ (0, fulfilled 20) ∷ (1, fulfilled 40) ∷ (2, fulfilled 60) ∷ []
unfolding finish fire pump pump_loop start take_chunk take_loop request make_limited bufferized_fn
    schedule worker release run_chunk settle_each BufferizedFunction.make
all_doubled = refl

Reach-Good_example : Good two one called
Reach-Good_example = Reach-Good two one (omega arith) called-Reach

finish-settled_example :
    IsQuiet two one (finish two one answer (remaining two one called) called)
    × (occurs 2 (promises_of (finish two one answer (remaining two one called) called).settled)
        ≡ (if ltb 2 called.promises then 1 else 0))
finish-settled_example =
    finish-settled two one answer called 2 (omega arith) (omega arith) called-Reach

armed : 1 ≤ called.buffer.timers
unfolding request make_limited bufferized_fn schedule BufferizedFunction.make
armed = omega arith

Turns-bound_example : 1 ≤ remaining two one called
Turns-bound_example =
    Turns-bound two one (omega arith) called-Reach (turn (fires called armed) stop)

abbrev pair : List (Request ℕ)
pair = record { arg = 5; promise = 0 } ∷ record { arg = 6; promise = 1 } ∷ []

abbrev one_unreadable : Outcome ℕ ℕ
one_unreadable = returned (value 10 ∷ unreadable ∷ [])

run_chunk-outcomes_example :
    (promises_of (run_chunk pair one_unreadable) ≡ ids pair)
    × (get_elem? (run_chunk pair one_unreadable) 1 ≡ some (1, outcome_at one_unreadable 2 1))
run_chunk-outcomes_example =
    run_chunk-outcomes pair one_unreadable 1 (record { arg = 6; promise = 1 }) refl

made_limited : make (limits undefined (integer 4)) ≡ limited none (some 4)
unfolding make choose_path
made_limited = refl

made_bounded : make (limits (integer 2) (integer 1)) ≡ limited two one
unfolding make choose_path
made_bounded = refl

-- after the timer one invocation of two requests runs
abbrev fired : Executor ℕ ℕ ℕ
fired = fire two one called

fired-Reach : Reach two one fired
fired-Reach = later called-Reach (turns (fires called armed))

make-obeyed_example :
    AtMost (length fired.running) (integer 1)
    × BatchesAtMost fired.running (integer 2)
    × ¬ (IsUnbounded (integer 2) × IsUnbounded (integer 1))
make-obeyed_example = make-obeyed (integer 2) (integer 1) two one fired made_bounded fired-Reach

abbrev events : List (Event ℕ ℕ ℕ)
events =
    calls 10
    ∷ calls 20
    ∷ Matching.fires
    ∷ calls 30
    ∷ Matching.ends 0 answer_two
    ∷ Matching.fires
    ∷ []
  where
    answer_two : Outcome ℕ ℕ
    answer_two = returned (value 1 ∷ value 2 ∷ [])

one_batch : (run_unlimited make_unlimited events).settled ≡ (0, fulfilled 1) ∷ (1, fulfilled 2) ∷ []
unfolding run_unlimited step_unlimited make_unlimited call invoke settle bufferized_fn schedule
    worker run_chunk settle_each BufferizedFunction.make Matching.pick
one_batch = refl

run_unlimited-run_limited_example :
    ((run_limited make_limited events).running ≡ (run_unlimited make_unlimited events).running)
    × ((run_limited make_limited events).settled ≡ (run_unlimited make_unlimited events).settled)
    × ((run_limited make_limited events).promises ≡ (run_unlimited make_unlimited events).promises)
    × ((run_limited make_limited events).buffer ≡ (run_unlimited make_unlimited events).buffer)
    × ((run_limited make_limited events).queued ≡ 0)
run_unlimited-run_limited_example = run_unlimited-run_limited events
