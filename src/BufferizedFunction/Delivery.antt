-- ===== src/BufferizedFunction/Delivery.antt =====
-- What src/BufferizedFunction.ts passes on: every argument once, in order.
use mathlib.Core.List.{append_assoc, append-nil}
use vjuga.Base.{
  suc_cases, zero, suc, ◌≡◌, refl, true, false, List, [], ◌∷◌, ◌++◌, if◌then◌else◌, arith, ap, sym,
  ◌∙◌, Bool-cases, ◌⊎◌, inl, inr,
}
use vjuga.BufferizedFunction.{Buffered, make, schedule, bufferized_fn, worker}

-- a call of the function, or the callback of a timer
pub data Event (T : Type 0) : Type 0 where
  calls : List T → Event T
  fires : Event T

module _ {T : Type 0} where
  pub bufferized_fn-queue :
      (b : Buffered T) (args : List T) → (bufferized_fn b args).queue ≡ b.queue ++ args
  unfolding bufferized_fn schedule
  bufferized_fn-queue b args = elim (Bool-cases b.scheduled) [
    | inl e ↦ rw e refl
    | inr e ↦ rw e refl
  ]

  -- After a call one timer is pending.
  pub bufferized_fn-armed :
      (b : Buffered T) (args : List T)
      → b.timers ≡ (if b.scheduled then 1 else 0)
      → ((bufferized_fn b args).scheduled ≡ true) × ((bufferized_fn b args).timers ≡ 1)
  unfolding bufferized_fn schedule
  bufferized_fn-armed b args h = elim (Bool-cases b.scheduled) [
    | inl e ↦ rw e (refl, ground (arith, h, e))
    | inr e ↦ rw e (refl, ground (arith, h, e))
  ]

  -- the batches passed on, in order, and the state after the events; a timer fires only if it is pending
  unfoldable pub run : Buffered T → List (Event T) → List T × Buffered T
  run b [] = ([], b)
  run b (calls args ∷ events) = run (bufferized_fn b args) events
  run b (fires ∷ events) = elim b.timers [
    | zero ↦ run b events
    | suc n ↦ ((worker b).0 ++ (run (worker b).1 events).0, (run (worker b).1 events).1)
  ]

  unfoldable pub arguments : List (Event T) → List T
  arguments [] = []
  arguments (calls args ∷ events) = args ++ arguments events
  arguments (fires ∷ events) = arguments events

  abbrev pub IsArmed : Buffered T → Type 0
  IsArmed b = (b.timers ≡ (if b.scheduled then 1 else 0)) × (b.scheduled ≡ false → b.queue ≡ [])

  bufferized_fn-IsArmed :
      (b : Buffered T) (args : List T) → IsArmed b → IsArmed (bufferized_fn b args)
  bufferized_fn-IsArmed b args a =
      let c = bufferized_fn-armed b args a.0 in
      (c.1 ∙ ap (λ s. if s then 1 else 0) (sym c.0), λ e. absurd (ground (arith, e, c.0)))

  worker-IsArmed : (b : Buffered T) → IsArmed b → IsArmed (worker b).1
  unfolding worker
  worker-IsArmed b a = (ground (arith, a.0), λ e. refl)

  run-delivers :
      (b : Buffered T) (events : List (Event T))
      → IsArmed b
      → ((run b events).0 ++ (run b events).1.queue ≡ b.queue ++ arguments events)
        × IsArmed (run b events).1
  unfolding run arguments worker
  run-delivers b [] a = (sym (append-nil b.queue), a)
  run-delivers b (calls args ∷ events) a =
      let r = run-delivers (bufferized_fn b args) events (bufferized_fn-IsArmed b args a) in
      (
        r.0
            ∙ ap (λ q. q ++ arguments events) (bufferized_fn-queue b args)
            ∙ append_assoc b.queue args (arguments events),
        r.1,
      )
  run-delivers b (fires ∷ events) a = elim (suc_cases b.timers) [
    | inl e ↦ rw (e, run) (run-delivers b events a)
    | inr (k, e) ↦
        let r = run-delivers (worker b).1 events (worker-IsArmed b a) in
        rw (e, run)
          (
            append_assoc b.queue (run (worker b).1 events).0 (run (worker b).1 events).1.queue
                ∙ ap (λ q. b.queue ++ q) r.0,
            r.1,
          )
  ]

  -- After any calls and timers on a new function, what was passed on and what is still queued are the
  -- arguments of the calls, each once and in order; and while something is queued, exactly one timer is
  -- pending.
  pub run-Delivered :
      (events : List (Event T))
      → let r = run make events in
        (r.0 ++ r.1.queue ≡ arguments events) × ((r.1.queue ≡ []) ⊎ (r.1.timers ≡ 1))
  unfolding make
  run-Delivered events =
      let d = run-delivers make events (refl, λ e. refl) in (d.0, pending (run make events).1 d.1)
    where
      pending : (b : Buffered T) → IsArmed b → (b.queue ≡ []) ⊎ (b.timers ≡ 1)
      pending b a = elim (Bool-cases b.scheduled) [
        | inl e ↦ inr (ground (arith, e, a.0))
        | inr e ↦ inl (a.1 e)
      ]
