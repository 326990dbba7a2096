-- ===== src/BatchExecutor.antt =====
-- src/BatchExecutor.ts: calls that are run in batches, each with a promise of its own. A promise is a
-- number; `settled` lists the calls of `resolve` and `reject`. What an invocation of `fn` does is the
-- environment's: `running` has the chunks whose invocation has not settled. A `Queue` is the list of
-- its elements. A limit is `none` if it is `Infinity`.
pub mod Settling
pub mod Taking
pub mod Pumping
pub mod Steps
pub mod Ending
pub mod Unlimited
pub mod Matching
mod Tests
use vjuga.Base.{
  ℕ, zero, suc, ◌+◌, ◌-◌, Bool, true, false, Option, none, some, List, [], ◌∷◌, ◌++◌, ◌==◌, ltb,
  leb, if◌then◌else◌, length, take, drop, ◌&&◌,
}
use vjuga.BufferizedFunction.{Buffered, bufferized_fn, worker}
use vjuga.BufferizedFunction

-- an argument of `make` that stands for a limit
pub data Number : Type 0 where
  undefined infinity other : Number
  integer : ℕ → Number

pub data Limit : Type 0 where
  limit : Option ℕ → Limit
  range_error : Limit

abbrev pub validate_limit : Number → Limit
validate_limit undefined = limit none
validate_limit infinity = limit none
validate_limit other = range_error
validate_limit (integer n) = if ltb n 1 then range_error else limit (some n)

pub record Request (T : Type 0) : Type 0 where
  pub arg : T
  pub promise : ℕ

-- why a promise is rejected: for a reason that `fn` gives, for a wrong number of results, or for a
-- result whose `status` cannot be read
pub data Reason (X : Type 0) : Type 0 where
  given : X → Reason X
  mismatch : ℕ → ℕ → Reason X
  unreadable_status : Reason X

pub data Settled (R X : Type 0) : Type 0 where
  fulfilled : R → Settled R X
  rejected : Reason X → Settled R X

-- An item that `fn` returns, as the loop reads it. An object is `value` of its `value` if its `status` is
-- "fulfilled", else `reason` of its `reason`, also if it has neither; `undefined` and `null`, whose
-- `status` cannot be read, are `unreadable`.
pub data Item (R X : Type 0) : Type 0 where
  value : R → Item R X
  reason : X → Item R X
  unreadable : Item R X

-- how an invocation of `fn` ends
pub data Outcome (R X : Type 0) : Type 0 where
  returned : List (Item R X) → Outcome R X
  failed : X → Outcome R X

module _ {T R X : Type 0} where
  -- the loop of the `catch` block
  unfoldable pub reject_all : Reason X → List (Request T) → List (ℕ × Settled R X)
  reject_all e [] = []
  reject_all e (a ∷ args) = (a.promise, rejected e) ∷ reject_all e args

  unfoldable pub settle_each : List (Request T) → List (Item R X) → List (ℕ × Settled R X)
  settle_each [] items = []
  settle_each (a ∷ args) [] = []
  settle_each (a ∷ args) (value r ∷ items) = (a.promise, fulfilled r) ∷ settle_each args items
  settle_each (a ∷ args) (reason x ∷ items) =
      (a.promise, rejected (given x)) ∷ settle_each args items
  settle_each (a ∷ args) (unreadable ∷ items) = reject_all unreadable_status (a ∷ args)

  -- what `runChunk` calls once its invocation has ended
  unfoldable pub run_chunk : List (Request T) → Outcome R X → List (ℕ × Settled R X)
  run_chunk args (failed x) = reject_all (given x) args
  run_chunk args (returned result) =
      if length result == length args
      then settle_each args result
      else reject_all (mismatch (length result) (length args)) args

module _ {A : Type 0} where
  -- the loop of `take`, with `m` requests still to take
  unfoldable pub take_loop : ℕ → ℕ → List (List A) → List A × ℕ × List (List A)
  take_loop m head [] = ([], 0, [])
  take_loop m head (front ∷ pending) =
      let (chunk, head', pending') = take_loop (m - (length front - head)) 0 pending in
      if leb (length front - head) m
      then (if length front - head == m
          then (drop head front, 0, pending)
          else (drop head front ++ chunk, head', pending'))
      else (take m (drop head front), head + m, front ∷ pending)

  -- the chunk, and what is left of the queue of arrays with its offset
  unfoldable pub take_chunk : ℕ → ℕ → List (List A) → List A × ℕ × List (List A)
  take_chunk n head [] = ([], head, [])
  take_chunk n head (front ∷ pending) =
      if leb n (length front - head)
      then (if head + n == length front
          then (drop head front, 0, pending)
          else (take n (drop head front), head + n, front ∷ pending))
      else take_loop n head (front ∷ pending)

pub record Executor (T R X : Type 0) : Type 0 where
  pub buffer : Buffered (Request T)
  pub pending : List (List (Request T))
  pub head : ℕ
  pub queued : ℕ
  pub in_flight : ℕ
  pub running : List (List (Request T))
  pub settled : List (ℕ × Settled R X)
  pub promises : ℕ

-- `n < limit` and the smaller of `n` and the limit
abbrev pub below : ℕ → Option ℕ → Bool
below n none = true
below n (some m) = ltb n m

abbrev pub within : ℕ → Option ℕ → ℕ
within n none = n
within n (some m) = if ltb n m then n else m

module _ {T R X : Type 0} where
  unfoldable pub make_limited : Executor T R X
  make_limited = record {
    buffer = BufferizedFunction.make;
    pending = [];
    head = 0;
    queued = 0;
    in_flight = 0;
    running = [];
    settled = [];
    promises = 0;
  }

  -- a call of the function that `makeLimited` returns
  unfoldable pub request : Executor T R X → T → Executor T R X
  request s arg = record s {
    buffer = bufferized_fn s.buffer (record { arg = arg; promise = s.promises } ∷ []);
    promises = s.promises + 1;
  }

module _ {T R X : Type 0} (max_batch_size max_in_flight : Option ℕ) where
  -- the body of the loop of `pump`: one more invocation
  unfoldable pub start : Executor T R X → Executor T R X
  start s =
      let n = within s.queued max_batch_size in
      let (chunk, head, pending) = take_chunk n s.head s.pending in
      record s {
        in_flight = s.in_flight + 1;
        queued = s.queued - n;
        head = head;
        pending = pending;
        running = s.running ++ chunk ∷ [];
      }

  -- each round takes a request, so `queued` rounds are enough
  unfoldable pub pump_loop : ℕ → Executor T R X → Executor T R X
  pump_loop zero s = s
  pump_loop (suc fuel) s =
      let s' = pump_loop fuel (start s) in
      if below s.in_flight max_in_flight && ltb 0 s.queued then s' else s

  unfoldable pub pump : Executor T R X → Executor T R X
  pump s = pump_loop s.queued s

  -- the timer of the buffer runs the worker with its batch
  unfoldable pub fire : Executor T R X → Executor T R X
  fire s =
      let (args, buffer) = worker s.buffer in
      pump (record s {
        buffer = buffer;
        pending = s.pending ++ args ∷ [];
        queued = s.queued + length args;
      })

  -- the invocation of `chunk` ends: its promises are settled, and `release` runs
  unfoldable pub release :
      Executor T R X → List (List (Request T)) → List (Request T) → Outcome R X → Executor T R X
  release s others chunk outcome = pump (record s {
    running = others;
    settled = s.settled ++ run_chunk chunk outcome;
    in_flight = s.in_flight - 1;
  })
