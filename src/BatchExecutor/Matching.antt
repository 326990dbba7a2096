-- ===== src/BatchExecutor/Matching.antt =====
-- The executor of src/BatchExecutor.ts without limits beside the one with both limits `Infinity`.
use vjuga.Base.{
  suc_cases, ℕ, zero, suc, ◌+◌, ◌-◌, ◌≤◌, ◌≡◌, refl, true, Option, none, some, List, [], ◌∷◌, ◌==◌,
  ltb, leb, lt→ltb, if◌then◌else◌, length, subst, arith, ap, sym, ◌∙◌, inl, inr, length-append,
}
use vjuga.BufferizedFunction.{Buffered, bufferized_fn, worker}
use vjuga.BufferizedFunction.Delivery.{bufferized_fn-queue, bufferized_fn-armed}
use vjuga.BufferizedFunction
use vjuga.BatchExecutor.{
  Request, Outcome, take_chunk, Executor, make_limited, request, start, pump_loop, pump, fire,
  release,
}
use vjuga.BatchExecutor.Unlimited.{Unlimited, make_unlimited, call, invoke, settle}

module _ {A : Type 0} where
  -- the second if a timer is pending
  abbrev pub timed : ℕ → A → A → A
  timed zero a b = a
  timed (suc n) a b = b

  abbrev pub picked : {B : Type 0} → Option B → A → (B → A) → A
  picked none a f = a
  picked (some b) a f = f b

module _ {T : Type 0} where
  -- the chunk at `i`, and the others
  unfoldable pub pick : List (List T) → ℕ → Option (List T × List (List T))
  pick [] i = none
  pick (c ∷ cs) zero = some (c, cs)
  pick (c ∷ cs) (suc i) = elim (pick cs i) [ none ↦ none | some r ↦ some (r.0, c ∷ r.1) ]

  take_chunk-all :
      (args : List (Request T)) → take_chunk (0 + length args) 0 (args ∷ []) ≡ (args, 0, [])
  unfolding take_chunk
  take_chunk-all args =
      let all : leb (0 + length args) (length args - 0) ≡ true = ground arith in
      let ends : (0 + (0 + length args) == length args) ≡ true = ground arith in rw (all, ends) refl

  -- a timer is pending exactly if one is scheduled, and then something is queued
  IsDue : Buffered (Request T) → Type 0
  IsDue b = (b.timers ≡ (if b.scheduled then 1 else 0)) × (b.scheduled ≡ true → 1 ≤ length b.queue)

  bufferized_fn-IsDue :
      (b : Buffered (Request T)) (r : Request T) → IsDue b → IsDue (bufferized_fn b (r ∷ []))
  unfolding IsDue
  bufferized_fn-IsDue b r d =
      let c = bufferized_fn-armed b (r ∷ []) d.0 in
      (
        c.1 ∙ ap (λ s. if s then 1 else 0) (sym c.0),
        λ e.
            omega
              (arith, ap length (bufferized_fn-queue b (r ∷ [])), length-append b.queue (r ∷ [])),
      )

  worker-IsDue : (b : Buffered (Request T)) → IsDue b → IsDue (worker b).1
  unfolding IsDue worker
  worker-IsDue b d = (ground (arith, d.0), λ e. absurd (ground (arith, e)))

  IsDue-some : (b : Buffered (Request T)) → 1 ≤ b.timers → IsDue b → 1 ≤ length b.queue
  unfolding IsDue
  IsDue-some b h d = d.1 (ground (arith, h, d.0))

make-IsDue : (T : Type 0) → IsDue (BufferizedFunction.make {T = Request T})
unfolding BufferizedFunction.make IsDue
make-IsDue T = (refl, λ e. absurd (ground (arith, e)))

-- a call, the timer, or the end of the invocation at a place of `running`; the last two do nothing
-- where there is none
pub data Event (T R X : Type 0) : Type 0 where
  calls : T → Event T R X
  fires : Event T R X
  ends : ℕ → Outcome R X → Event T R X

module _ {T R X : Type 0} where
  unfoldable pub step_unlimited : Unlimited T R X → Event T R X → Unlimited T R X
  step_unlimited u (calls arg) = call u arg
  step_unlimited u fires = timed u.buffer.timers u (invoke u)
  step_unlimited u (ends i outcome) = picked (pick u.running i) u (λ r. settle u r.1 r.0 outcome)

  unfoldable pub step_limited : Executor T R X → Event T R X → Executor T R X
  step_limited s (calls arg) = request s arg
  step_limited s fires = timed s.buffer.timers s (fire none none s)
  step_limited s (ends i outcome) =
      picked (pick s.running i) s (λ r. release none none s r.1 r.0 outcome)

  unfoldable pub run_unlimited : Unlimited T R X → List (Event T R X) → Unlimited T R X
  run_unlimited u [] = u
  run_unlimited u (e ∷ events) = run_unlimited (step_unlimited u e) events

  unfoldable pub run_limited : Executor T R X → List (Event T R X) → Executor T R X
  run_limited s [] = s
  run_limited s (e ∷ events) = run_limited (step_limited s e) events

  -- the state with limits that the state without stands for, with `k` invocations running
  abbrev as_limited : Unlimited T R X → ℕ → Executor T R X
  as_limited u k = record {
    buffer = u.buffer;
    pending = [];
    head = 0;
    queued = 0;
    in_flight = k;
    running = u.running;
    settled = u.settled;
    promises = u.promises;
  }

  pump_loop-idle : (fuel : ℕ) (s : Executor T R X) → s.queued ≡ 0 → pump_loop none none fuel s ≡ s
  unfolding pump_loop
  pump_loop-idle zero s h = refl
  pump_loop-idle (suc fuel) s h = rw h refl

  pump_loop-once :
      (fuel : ℕ) (s : Executor T R X)
      → 1 ≤ s.queued
      → (start none none s).queued ≡ 0
      → pump_loop none none (suc fuel) s ≡ start none none s
  unfolding pump_loop
  pump_loop-once fuel s h g =
      let some_queued : ltb 0 s.queued ≡ true = lt→ltb 0 s.queued (omega (arith, h)) in
      rw some_queued (pump_loop-idle fuel (start none none s) g)

  pump-idle : (s : Executor T R X) → s.queued ≡ 0 → pump none none s ≡ s
  unfolding pump
  pump-idle s h = pump_loop-idle s.queued s h

  pump-once :
      (s : Executor T R X)
      → 1 ≤ s.queued
      → (start none none s).queued ≡ 0
      → pump none none s ≡ start none none s
  unfolding pump
  pump-once s h g = elim (suc_cases s.queued) [
    | inl e ↦ absurd (omega (arith, e, h))
    | inr (k, e) ↦ ap (λ n. pump_loop none none n s) e ∙ pump_loop-once k s h g
  ]

  fire-as_limited :
      (u : Unlimited T R X) (k : ℕ)
      → 1 ≤ length u.buffer.queue
      → fire none none (as_limited u k) ≡ as_limited (invoke u) (k + 1)
  unfolding fire invoke worker
  fire-as_limited u k h =
      pump-once fired (omega (arith, h)) (unfold start in none_left)
      ∙ (unfold start in rw (take_chunk-all u.buffer.queue, none_left) refl)
    where
      fired : Executor T R X
      fired = record (as_limited u k) {
        buffer = (worker u.buffer).1;
        pending = u.buffer.queue ∷ [];
        queued = 0 + length u.buffer.queue;
      }

      none_left : 0 + length u.buffer.queue - (0 + length u.buffer.queue) ≡ 0
      none_left = omega arith

  -- the two states after a step
  Match : Unlimited T R X → Executor T R X → Type 0
  Match u s = ((n : ℕ) × (s ≡ as_limited u n)) × IsDue u.buffer

  timed-Match :
      (n : ℕ) (u v : Unlimited T R X) (s t : Executor T R X)
      → Match u s
      → (1 ≤ n → Match v t)
      → Match (timed n u v) (timed n s t)
  timed-Match zero u v s t g h = g
  timed-Match (suc n) u v s t g h = h (omega arith)

  picked-Match :
      {B : Type 0} (o : Option B) (u : Unlimited T R X) (s : Executor T R X)
      (f : B → Unlimited T R X) (g : B → Executor T R X)
      → Match u s
      → ((b : B) → Match (f b) (g b))
      → Match (picked o u f) (picked o s g)
  picked-Match none u s f g h k = h
  picked-Match (some b) u s f g h k = k b

  step-Match :
      (u : Unlimited T R X) (k : ℕ) (e : Event T R X)
      → IsDue u.buffer
      → Match (step_unlimited u e) (step_limited (as_limited u k) e)
  unfolding step_limited step_unlimited Match
  step-Match u k (calls arg) d = (
    (k, unfold request in unfold call in refl),
    unfold call in bufferized_fn-IsDue u.buffer (record { arg = arg; promise = u.promises }) d,
  )
  step-Match u k fires d =
      timed-Match u.buffer.timers u (invoke u) (as_limited u k) (fire none none (as_limited u k))
        ((k, refl), d)
        (λ h. (
          (k + 1, fire-as_limited u k (IsDue-some u.buffer h d)),
          unfold invoke in worker-IsDue u.buffer d,
        ))
  step-Match u k (ends i outcome) d =
      picked-Match (pick u.running i) u (as_limited u k) _ _ ((k, refl), d)
        (λ r. ((k - 1, unfold release in unfold settle in pump-idle _ refl), unfold settle in d))

  run-Match :
      (u : Unlimited T R X) (k : ℕ) (events : List (Event T R X))
      → IsDue u.buffer
      → Match (run_unlimited u events) (run_limited (as_limited u k) events)
  unfolding run_unlimited run_limited Match
  run-Match u k [] d = ((k, refl), d)
  run-Match u k (e ∷ events) d =
      let m = step-Match u k e d in
      subst (λ s. Match (run_unlimited (step_unlimited u e) events) (run_limited s events))
        (sym m.0.1) (run-Match (step_unlimited u e) m.0.0 events m.1)

  make_limited-as : make_limited ≡ as_limited make_unlimited 0
  unfolding make_limited make_unlimited
  make_limited-as = refl

  -- After any calls, timers and ends of invocations, an executor without limits has the invocations, the
  -- settled promises and the buffer of one with both limits `Infinity`.
  pub run_unlimited-run_limited :
      (events : List (Event T R X))
      → let u = run_unlimited make_unlimited events in
        let s = run_limited make_limited events in
        (s.running ≡ u.running)
        × (s.settled ≡ u.settled)
        × (s.promises ≡ u.promises)
        × (s.buffer ≡ u.buffer)
        × (s.queued ≡ 0)
  unfolding Match
  run_unlimited-run_limited events =
      let start_due : IsDue (make_unlimited {T = T} {R = R} {X = X}).buffer =
        unfold make_unlimited in make-IsDue T in
      let m = run-Match make_unlimited 0 events start_due in
      let e : run_limited make_limited events
          ≡ as_limited (run_unlimited make_unlimited events) m.0.0 =
        ap (λ s. run_limited s events) make_limited-as ∙ m.0.1 in
      (
        ap (λ (s : Executor T R X). s.running) e,
        ap (λ (s : Executor T R X). s.settled) e,
        ap (λ (s : Executor T R X). s.promises) e,
        ap (λ (s : Executor T R X). s.buffer) e,
        ap (λ (s : Executor T R X). s.queued) e,
      )
