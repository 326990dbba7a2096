-- ===== src/BufferizedFunction.antt =====
-- src/BufferizedFunction.ts: a function whose calls are collected and passed on in one batch. The queue
-- is the list that its buffer holds; `timers` counts the callbacks that `setTimeout` or `setImmediate`
-- still has to run, of either mode of scheduling.
pub mod Delivery
mod Tests
use vjuga.Base.{ℕ, ◌+◌, ◌-◌, Bool, true, false, List, [], ◌++◌, if◌then◌else◌}

pub record Buffered (T : Type 0) : Type 0 where
  pub queue : List T
  pub scheduled : Bool
  pub timers : ℕ

module _ {T : Type 0} where
  unfoldable pub make : Buffered T
  make = record { queue = []; scheduled = false; timers = 0 }

  -- `scheduleMacrotask` and `scheduleIO`
  unfoldable pub schedule : Buffered T → Buffered T
  schedule b = record b { timers = b.timers + 1 }

  -- a call of the function that `make` returns
  unfoldable pub bufferized_fn : Buffered T → List T → Buffered T
  bufferized_fn b args =
      let b' = record b { queue = b.queue ++ args } in
      if b.scheduled then b' else schedule (record b' { scheduled = true })

  -- the callback of a timer, with the batch it passes to `fn`
  unfoldable pub worker : Buffered T → List T × Buffered T
  worker b = (b.queue, record b { queue = []; scheduled = false; timers = b.timers - 1 })
