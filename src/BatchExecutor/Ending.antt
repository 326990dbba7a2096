-- ===== src/BatchExecutor/Ending.antt =====
-- The steps of src/BatchExecutor.ts come to an end, with every promise settled.
use vjuga.Base.{
  suc_cases, cons_cases, ℕ, zero, suc, ◌+◌, ◌-◌, ◌≤◌, ◌<◌, ◌≡◌, refl, true, false, Option, none,
  some, List, [], ◌∷◌, ◌++◌, ltb, if◌then◌else◌, arith, ap, ap₂, sym, ◌∙◌, subst, length,
  length-append, Bool-cases, inl, inr, ◌&&◌,
}
use vjuga.Base.Counts.{occurs}
use vjuga.BufferizedFunction.{worker}
use vjuga.BatchExecutor.{
  Request, Outcome, run_chunk, Executor, below, start, pump_loop, pump, fire, release,
}
use vjuga.BatchExecutor.Settling.{ids, promises_of, length-run_chunk}
use vjuga.BatchExecutor.Taking.{concat}
use vjuga.BatchExecutor.Pumping.{IsLimit, AllWithin, waits}
use vjuga.BatchExecutor.Steps.{
  length-remove_chunk, Turn, fires, ends, Reach, Good, Turn-Good, Reach-Good,
}

flight_free : (max : Option ℕ) → IsLimit max → below 0 max ≡ true
flight_free none l = refl
flight_free (some m) l = ground arith

none_left : {A : Type 0} (xs : List A) → length xs ≡ 0 → xs ≡ []
none_left [] h = refl
none_left (x ∷ xs) h = absurd (omega (arith, h))

module _ {T : Type 0} (max_batch : Option ℕ) where
  some_request :
      (before : List (List (Request T))) (chunk : List (Request T))
      (after : List (List (Request T)))
      → AllWithin max_batch (before ++ chunk ∷ after)
      → 1 ≤ length chunk
  some_request [] chunk after a = a.0
  some_request (c ∷ before) chunk after a = some_request before chunk after a.2

module _ {T R X : Type 0} (max_batch max_flight : Option ℕ) where
  -- what `pump` leaves alone
  abbrev pub SameEnds : Executor T R X → Executor T R X → Type 0
  SameEnds s t =
      (t.settled ≡ s.settled) × (t.promises ≡ s.promises) × (t.buffer.timers ≡ s.buffer.timers)

  pump_loop-same :
      (fuel : ℕ) (s : Executor T R X) → SameEnds s (pump_loop max_batch max_flight fuel s)
  unfolding pump_loop start
  pump_loop-same zero s = (refl, refl, refl)
  pump_loop-same (suc fuel) s = elim (Bool-cases (below s.in_flight max_flight && ltb 0 s.queued)) [
    | inl e ↦ rw e (pump_loop-same fuel (start max_batch max_flight s))
    | inr e ↦ rw e (refl, refl, refl)
  ]

  pump-same : (s : Executor T R X) → SameEnds s (pump max_batch max_flight s)
  unfolding pump
  pump-same s = pump_loop-same s.queued s

  -- how many more steps there can be without a call
  unfoldable pub remaining : Executor T R X → ℕ
  remaining s = s.buffer.timers + (s.promises - length s.settled)

  remaining-pump : (s : Executor T R X) → remaining (pump max_batch max_flight s) ≡ remaining s
  unfolding remaining
  remaining-pump s =
      let q = pump-same s in
      ap₂ (λ a b. a + b) q.2 (ap₂ (λ a b. a - b) q.1 (ap (λ z. length z) q.0))

  fire-remaining :
      (s : Executor T R X)
      → 1 ≤ s.buffer.timers
      → remaining (fire max_batch max_flight s) < remaining s
  unfolding fire worker
  fire-remaining s p =
      subst (λ z. z < remaining s) (sym (remaining-pump fired))
        (unfold remaining in omega (arith, p))
    where
      fired : Executor T R X
      fired = record s {
        buffer = (worker s.buffer).1;
        pending = s.pending ++ s.buffer.queue ∷ [];
        queued = s.queued + length s.buffer.queue;
      }

  release-remaining :
      (s : Executor T R X) (before : List (List (Request T))) (chunk : List (Request T))
      (after : List (List (Request T))) (outcome : Outcome R X)
      → s.running ≡ before ++ chunk ∷ after
      → Good max_batch max_flight s
      → remaining (release max_batch max_flight s (before ++ after) chunk outcome) < remaining s
  unfolding release
  release-remaining s before chunk after outcome e (i, full) =
      subst (λ z. z < remaining s) (sym (remaining-pump ended))
        (unfold remaining in
          omega (
            arith,
            length-append s.settled (run_chunk chunk outcome),
            length-run_chunk chunk outcome,
            some_request max_batch before chunk after
                (subst (AllWithin max_batch) e i.chunks_within),
            i.total,
            ap (λ z. length (concat z)) e,
            length-remove_chunk before chunk after,
          ))
    where
      ended : Executor T R X
      ended = record s {
        running = before ++ after;
        settled = s.settled ++ run_chunk chunk outcome;
        in_flight = s.in_flight - 1;
      }

  Turn-remaining :
      {s t : Executor T R X}
      → Turn max_batch max_flight s t
      → Good max_batch max_flight s
      → remaining t < remaining s
  Turn-remaining (fires s p) g = fire-remaining s p
  Turn-remaining (ends s before chunk after outcome e) g =
      release-remaining s before chunk after outcome e g

  Turn-promises : {s t : Executor T R X} → Turn max_batch max_flight s t → t.promises ≡ s.promises
  unfolding fire worker release
  Turn-promises (fires s p) = (pump-same _).1
  Turn-promises (ends s before chunk after outcome e) = (pump-same _).1

  pub data Turns : ℕ → Executor T R X → Executor T R X → Type 0 where
    stop : {s : Executor T R X} → Turns zero s s
    turn :
        {n : ℕ} {s t u : Executor T R X}
        → Turn max_batch max_flight s t
        → Turns n t u
        → Turns (suc n) s u

  Turns-remaining :
      {n : ℕ} {s t : Executor T R X}
      → IsLimit max_batch
      → Good max_batch max_flight s
      → Turns n s t
      → (n + remaining t ≤ remaining s) × (t.promises ≡ s.promises) × Good max_batch max_flight t
  Turns-remaining l g stop = (omega arith, refl, g)
  Turns-remaining l g (turn t ts) =
      let r = Turns-remaining l (Turn-Good max_batch max_flight l t g) ts in
      (omega (arith, r.0, Turn-remaining t g), r.1 ∙ Turn-promises t, r.2)

  -- no timer is pending and no invocation runs
  abbrev pub IsQuiet : Executor T R X → Type 0
  IsQuiet s = (s.buffer.timers ≡ 0) × (s.running ≡ [])

  quiet-settled :
      (s : Executor T R X)
      → IsLimit max_flight
      → Good max_batch max_flight s
      → IsQuiet s
      → (x : ℕ) → occurs x (promises_of s.settled) ≡ (if ltb x s.promises then 1 else 0)
  unfolding occurs
  quiet-settled s l (i, full) q x = omega (
    arith,
    i.once x,
    ap (λ z. occurs x (ids z)) (i.idle unscheduled),
    ap (λ z. occurs x (ids z)) (none_left (waits s) none_waits),
    ap (λ z. occurs x (ids (concat z))) q.1,
  )
    where
      unscheduled : s.buffer.scheduled ≡ false
      unscheduled = ground (arith, q.0, i.timer_is)

      free : below s.in_flight max_flight ≡ true
      free =
          subst (λ z. below z max_flight ≡ true) (sym (i.flight_is ∙ ap (λ z. length z) q.1))
            (flight_free max_flight l)

      none_waits : length (waits s) ≡ 0
      none_waits = elim full [
        | inl e ↦ omega (arith, e, i.queued_is)
        | inr e ↦ absurd (ground (arith, e, free))
      ]

  -- If `maxBatchSize` is at least 1 or `Infinity`: from any state that can be reached, the timers and the ends of invocations, in any order and with any
  -- outcomes, take at most `remaining` steps until the next call.
  pub Turns-bound :
      {n : ℕ} {s t : Executor T R X}
      → IsLimit max_batch
      → Reach max_batch max_flight s
      → Turns n s t
      → n ≤ remaining s
  Turns-bound l r ts = omega (arith, (Turns-remaining l (Reach-Good max_batch max_flight l r) ts).0)

  -- When, after such steps, no timer is pending and no invocation runs, each promise made so far is
  -- settled, and settled once.
  pub Turns-settled :
      {n : ℕ} {s t : Executor T R X} (x : ℕ)
      → IsLimit max_batch
      → IsLimit max_flight
      → Reach max_batch max_flight s
      → Turns n s t
      → IsQuiet t
      → occurs x (promises_of t.settled) ≡ (if ltb x s.promises then 1 else 0)
  Turns-settled x l k r ts q =
      let g = Turns-remaining l (Reach-Good max_batch max_flight l r) ts in
      quiet-settled _ k g.2 q x ∙ ap (λ p. if ltb x p then 1 else 0) g.1

  module _ (answer : List (Request T) → Outcome R X) where
    -- the timer when one is pending, else the end of the oldest invocation
    unfoldable pub finish : ℕ → Executor T R X → Executor T R X
    finish zero s = s
    finish (suc fuel) s = elim s.buffer.timers [
      | suc n ↦ finish fuel (fire max_batch max_flight s)
      | zero ↦ elim s.running [
        | [] ↦ s
        | chunk ∷ others ↦ finish fuel (release max_batch max_flight s others chunk (answer chunk))
      ]
    ]

    finish-IsQuiet :
        (fuel : ℕ) (s : Executor T R X)
        → IsLimit max_batch
        → remaining s ≤ fuel
        → Good max_batch max_flight s
        → IsQuiet (finish fuel s)
          × Good max_batch max_flight (finish fuel s)
          × ((finish fuel s).promises ≡ s.promises)
    unfolding finish
    finish-IsQuiet zero s l f g = elim (suc_cases s.buffer.timers) [
      | inr (k, e) ↦ absurd (omega (arith, f, fire-remaining s (omega (arith, e))))
      | inl e ↦ elim (cons_cases s.running) [
        | inl h ↦ ((e, h), g, refl)
        | inr (chunk, others, h) ↦
            absurd (omega (arith, f, release-remaining s [] chunk others (answer chunk) h g))
      ]
    ]
    finish-IsQuiet (suc fuel) s l f g = elim (suc_cases s.buffer.timers) [
      | inr (k, e) ↦
          let t = fires s (omega (arith, e)) in
          let r =
            finish-IsQuiet fuel (fire max_batch max_flight s) l
              (omega (arith, f, Turn-remaining t g)) (Turn-Good max_batch max_flight l t g) in
          rw (e, finish) (r.0, r.1, r.2 ∙ Turn-promises t)
      | inl e ↦ elim (cons_cases s.running) [
        | inl h ↦ rw (e, h, finish) ((e, h), g, refl)
        | inr (chunk, others, h) ↦
            let t = ends s [] chunk others (answer chunk) h in
            let r =
              finish-IsQuiet fuel (release max_batch max_flight s others chunk (answer chunk)) l
                (omega (arith, f, Turn-remaining t g)) (Turn-Good max_batch max_flight l t g) in
            rw (e, h, finish) (r.0, r.1, r.2 ∙ Turn-promises t)
      ]
    ]

    -- If both limits are at least 1 or `Infinity`: from any state that can be reached, when without more
    -- calls a pending timer fires and else the oldest invocation ends, with any outcomes, then after at
    -- most `remaining` steps every promise made is settled exactly once, nothing runs and no timer is
    -- pending.
    pub finish-settled :
        (s : Executor T R X) (x : ℕ)
        → IsLimit max_batch
        → IsLimit max_flight
        → Reach max_batch max_flight s
        → IsQuiet (finish (remaining s) s)
          × (occurs x (promises_of (finish (remaining s) s).settled)
              ≡ (if ltb x s.promises then 1 else 0))
    finish-settled s x l k r =
        let f =
          finish-IsQuiet (remaining s) s l (omega arith) (Reach-Good max_batch max_flight l r) in
        (
          f.0,
          quiet-settled (finish (remaining s) s) k f.1 f.0 x
              ∙ ap (λ p. if ltb x p then 1 else 0) f.2,
        )
