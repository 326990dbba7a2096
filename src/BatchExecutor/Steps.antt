-- ===== src/BatchExecutor/Steps.antt =====
-- The steps of an executor of src/BatchExecutor.ts: a call, the timer, and the end of an invocation.
use mathlib.Core.List.{append_assoc, append-nil}
use vjuga.Base.{
  ℕ, zero, suc, ◌+◌, ◌-◌, ◌≤◌, ◌≡◌, refl, true, Option, none, some, List, [], ◌∷◌, ◌++◌, ◌==◌,
  if◌then◌else◌, arith, ap, sym, ◌∙◌, subst, length, length-append, inl,
}
use vjuga.Base.Counts.{occurs, occurs-append}
use vjuga.BufferizedFunction.{Buffered, bufferized_fn, worker}
use vjuga.BufferizedFunction.Delivery.{bufferized_fn-queue, bufferized_fn-armed}
use vjuga.BufferizedFunction
use vjuga.BatchExecutor.{
  Request, Outcome, run_chunk, Executor, make_limited, fire, release, request,
}
use vjuga.BatchExecutor.Settling.{
  ids, ids-append, promises_of, promises_of-append, run_chunk-promises, length-run_chunk,
}
use vjuga.BatchExecutor.Taking.{concat, waiting, waiting-append, IsFront-append}
use vjuga.BatchExecutor.Pumping.{
  numbers, IsLimit, IsWithin, AllWithin, waits, Inv, IsFull, pump-Inv,
}

module _ {T R X : Type 0} (max_batch max_flight : Option ℕ) where
  -- a step that is not a call: the timer, or the end of an invocation
  pub data Turn : Executor T R X → Executor T R X → Type 0 where
    fires : (s : Executor T R X) → 1 ≤ s.buffer.timers → Turn s (fire max_batch max_flight s)
    ends :
        (s : Executor T R X) (before : List (List (Request T))) (chunk : List (Request T))
        (after : List (List (Request T))) (outcome : Outcome R X)
        → s.running ≡ before ++ chunk ∷ after
        → Turn s (release max_batch max_flight s (before ++ after) chunk outcome)

  pub data Step : Executor T R X → Executor T R X → Type 0 where
    requests : (s : Executor T R X) (arg : T) → Step s (request s arg)
    turns : {s t : Executor T R X} → Turn s t → Step s t

  pub data Reach : Executor T R X → Type 0 where
    new : Reach make_limited
    later : {s t : Executor T R X} → Reach s → Step s t → Reach t

numbers-suc : (a n : ℕ) → numbers a (suc n + 1) ≡ a ∷ numbers (suc a) (n + 1)
numbers-suc a n = let e : suc n + 1 ≡ suc (n + 1) = omega arith in ap (numbers a) e

snoc : (n a p : ℕ) → a + n ≡ p → numbers a n ++ p ∷ [] ≡ numbers a (n + 1)
snoc zero a p f = ap (λ z. z ∷ []) (omega (arith, f))
snoc (suc n) a p f = ap (λ l. a ∷ l) (snoc n (suc a) p (omega (arith, f))) ∙ sym (numbers-suc a n)

numbers-snoc :
    (xs : List ℕ) (a n p : ℕ) → xs ≡ numbers a n → a + n ≡ p → xs ++ p ∷ [] ≡ numbers a (n + 1)
numbers-snoc xs a n p e f = ap (λ l. l ++ p ∷ []) e ∙ snoc n a p f

fewer-IsWithin : (n : ℕ) (max : Option ℕ) → IsWithin n max → IsWithin (n - 1) max
fewer-IsWithin n none w = tt
fewer-IsWithin n (some m) w = omega (arith, w)

module _ {T : Type 0} where
  AllWithin-remove :
      (max_batch : Option ℕ) (before : List (List (Request T))) (chunk : List (Request T))
      (after : List (List (Request T)))
      → AllWithin max_batch (before ++ chunk ∷ after)
      → AllWithin max_batch (before ++ after)
  AllWithin-remove max_batch [] chunk after a = a.2
  AllWithin-remove max_batch (c ∷ before) chunk after a =
      (a.0, a.1, AllWithin-remove max_batch before chunk after a.2)

  pub length-remove_chunk :
      (before : List (List (Request T))) (chunk : List (Request T))
      (after : List (List (Request T)))
      → length (concat (before ++ chunk ∷ after)) ≡ length (concat (before ++ after)) + length chunk
  length-remove_chunk [] chunk after = length-append chunk (concat after) ∙ omega arith
  length-remove_chunk (c ∷ before) chunk after =
      length-append c (concat (before ++ chunk ∷ after))
      ∙ omega (
        arith,
        length-remove_chunk before chunk after,
        length-append c (concat (before ++ after)),
      )

  occurs-remove_chunk :
      (before : List (List (Request T))) (chunk : List (Request T))
      (after : List (List (Request T))) (x : ℕ)
      → occurs x (ids (concat (before ++ chunk ∷ after)))
        ≡ occurs x (ids (concat (before ++ after))) + occurs x (ids chunk)
  occurs-remove_chunk [] chunk after x =
      ap (occurs x) (ids-append chunk (concat after))
      ∙ occurs-append x (ids chunk) (ids (concat after))
      ∙ omega arith
  occurs-remove_chunk (c ∷ before) chunk after x =
      ap (occurs x) (ids-append c (concat (before ++ chunk ∷ after)))
      ∙ occurs-append x (ids c) (ids (concat (before ++ chunk ∷ after)))
      ∙ omega (
        arith,
        occurs-remove_chunk before chunk after x,
        ap (occurs x) (ids-append c (concat (before ++ after))),
        occurs-append x (ids c) (ids (concat (before ++ after))),
      )

module _ {T R X : Type 0} (max_batch max_flight : Option ℕ) where
  abbrev pub Good : Executor T R X → Type 0
  Good s = Inv max_batch max_flight s × IsFull max_flight s

  make_limited-Good : Good make_limited
  unfolding make_limited BufferizedFunction.make waiting occurs
  make_limited-Good = (
    record {
      queued_is = refl;
      front = refl;
      flight_is = refl;
      flight_within = none_running max_flight;
      chunks_within = tt;
      timer_is = refl;
      idle = λ e. refl;
      due = λ e. absurd (ground (arith, e));
      once = λ x. ground arith;
      total = refl;
      first = 0;
      in_order = refl;
      newest = refl;
    },
    inl refl,
  )
    where
      none_running : (max : Option ℕ) → IsWithin 0 max
      none_running none = tt
      none_running (some m) = omega arith

  request-Good : (s : Executor T R X) (arg : T) → Good s → Good (request s arg)
  unfolding request occurs
  request-Good s arg (i, full) = (
    record {
      queued_is = i.queued_is;
      front = i.front;
      flight_is = i.flight_is;
      flight_within = i.flight_within;
      chunks_within = i.chunks_within;
      timer_is = armed.1 ∙ ap (λ b. if b then 1 else 0) (sym armed.0);
      idle = λ e. absurd (ground (arith, e, armed.0));
      due = λ e. omega (arith, longer);
      once = λ x. ground (arith, i.once x, one_more x);
      total = omega (arith, i.total, longer);
      first = i.first;
      in_order =
          ap (λ q. ids (waits s) ++ ids q) queue_is
          ∙ ap (λ l. ids (waits s) ++ l) (ids-append s.buffer.queue (r ∷ []))
          ∙ sym (append_assoc (ids (waits s)) (ids s.buffer.queue) (s.promises ∷ []))
          ∙ numbers-snoc _ i.first _ s.promises i.in_order i.newest
          ∙ ap (numbers i.first) (omega (arith, longer));
      newest = omega (arith, i.newest, longer);
    },
    full,
  )
    where
      r : Request T
      r = record { arg = arg; promise = s.promises }

      b : Buffered (Request T)
      b = bufferized_fn s.buffer (r ∷ [])

      queue_is : b.queue ≡ s.buffer.queue ++ r ∷ []
      queue_is = bufferized_fn-queue s.buffer (r ∷ [])

      armed : (b.scheduled ≡ true) × (b.timers ≡ 1)
      armed = bufferized_fn-armed s.buffer (r ∷ []) i.timer_is

      longer : length b.queue ≡ length s.buffer.queue + 1
      longer = ap length queue_is ∙ length-append s.buffer.queue (r ∷ [])

      one_more :
          (x : ℕ)
          → occurs x (ids b.queue)
            ≡ occurs x (ids s.buffer.queue) + (if x == s.promises then 1 else 0)
      one_more x =
          ap (λ q. occurs x (ids q)) queue_is
          ∙ ap (occurs x) (ids-append s.buffer.queue (r ∷ []))
          ∙ occurs-append x (ids s.buffer.queue) (s.promises ∷ [])
          ∙ omega arith

  fire-Good :
      (s : Executor T R X)
      → IsLimit max_batch
      → 1 ≤ s.buffer.timers
      → Good s
      → Good (fire max_batch max_flight s)
  unfolding fire worker occurs
  fire-Good s l p (i, full) = pump-Inv max_batch max_flight fired l (record {
    queued_is =
        omega (arith, i.queued_is, ap length waits_is, length-append (waits s) s.buffer.queue);
    front = IsFront-append s.head s.pending s.buffer.queue (i.due scheduled) i.front;
    flight_is = i.flight_is;
    flight_within = i.flight_within;
    chunks_within = i.chunks_within;
    timer_is = timers_none;
    idle = λ e. refl;
    due = λ e. absurd (ground (arith, e));
    once = λ x. omega (arith, i.once x, moved x);
    total = omega (arith, i.total, lengths);
    first = i.first;
    in_order =
        append-nil (ids (waits fired))
        ∙ ap ids waits_is
        ∙ ids-append (waits s) s.buffer.queue
        ∙ i.in_order
        ∙ ap (numbers i.first) (omega (arith, lengths));
    newest = omega (arith, i.newest, lengths);
  })
    where
      fired : Executor T R X
      fired = record s {
        buffer = (worker s.buffer).1;
        pending = s.pending ++ s.buffer.queue ∷ [];
        queued = s.queued + length s.buffer.queue;
      }

      scheduled : s.buffer.scheduled ≡ true
      scheduled = ground (arith, p, i.timer_is)

      timers_none : s.buffer.timers - 1 ≡ 0
      timers_none = ground (arith, i.timer_is)

      waits_is : waits fired ≡ waits s ++ s.buffer.queue
      waits_is = waiting-append s.head s.pending s.buffer.queue i.front

      lengths : length (waits fired) ≡ length (waits s) + length s.buffer.queue
      lengths = ap length waits_is ∙ length-append (waits s) s.buffer.queue

      moved :
          (x : ℕ)
          → occurs x (ids (waits fired)) ≡ occurs x (ids (waits s)) + occurs x (ids s.buffer.queue)
      moved x =
          ap (λ z. occurs x (ids z)) waits_is
          ∙ ap (occurs x) (ids-append (waits s) s.buffer.queue)
          ∙ occurs-append x (ids (waits s)) (ids s.buffer.queue)

  release-Good :
      (s : Executor T R X) (before : List (List (Request T))) (chunk : List (Request T))
      (after : List (List (Request T))) (outcome : Outcome R X)
      → IsLimit max_batch
      → s.running ≡ before ++ chunk ∷ after
      → Good s
      → Good (release max_batch max_flight s (before ++ after) chunk outcome)
  unfolding release
  release-Good s before chunk after outcome l e (i, full) =
      pump-Inv max_batch max_flight ended l (record {
        queued_is = i.queued_is;
        front = i.front;
        flight_is = omega (
          arith,
          i.flight_is,
          ap length e,
          length-append before (chunk ∷ after),
          length-append before after,
        );
        flight_within = fewer-IsWithin s.in_flight max_flight i.flight_within;
        chunks_within =
            AllWithin-remove max_batch before chunk after
              (subst (AllWithin max_batch) e i.chunks_within);
        timer_is = i.timer_is;
        idle = i.idle;
        due = i.due;
        once = λ x. omega (arith, i.once x, ran x, done x);
        total = omega (
          arith,
          i.total,
          length-remove_chunk before chunk after,
          ap (λ z. length (concat z)) e,
          length-append s.settled (run_chunk chunk outcome),
          length-run_chunk chunk outcome,
        );
        first = i.first;
        in_order = i.in_order;
        newest = i.newest;
      })
    where
      ended : Executor T R X
      ended = record s {
        running = before ++ after;
        settled = s.settled ++ run_chunk chunk outcome;
        in_flight = s.in_flight - 1;
      }

      ran :
          (x : ℕ)
          → occurs x (ids (concat s.running))
            ≡ occurs x (ids (concat (before ++ after))) + occurs x (ids chunk)
      ran x = ap (λ z. occurs x (ids (concat z))) e ∙ occurs-remove_chunk before chunk after x

      done :
          (x : ℕ)
          → occurs x (promises_of (s.settled ++ run_chunk chunk outcome))
            ≡ occurs x (promises_of s.settled) + occurs x (ids chunk)
      done x =
          ap (occurs x) (
            promises_of-append s.settled (run_chunk chunk outcome)
            ∙ ap (λ z. promises_of s.settled ++ z) (run_chunk-promises chunk outcome))
          ∙ occurs-append x (promises_of s.settled) (ids chunk)

  pub Turn-Good :
      {s t : Executor T R X} → IsLimit max_batch → Turn max_batch max_flight s t → Good s → Good t
  Turn-Good l (fires s p) g = fire-Good s l p g
  Turn-Good l (ends s before chunk after outcome e) g =
      release-Good s before chunk after outcome l e g

  pub Step-Good :
      {s t : Executor T R X} → IsLimit max_batch → Step max_batch max_flight s t → Good s → Good t
  Step-Good l (requests s arg) g = request-Good s arg g
  Step-Good l (turns t) g = Turn-Good l t g

  -- If `maxBatchSize` is at least 1 or `Infinity`: in every state that calls, timers and the ends of invocations lead to, in any order: the counts are
  -- right; at most `maxInFlight` invocations run, each of one to `maxBatchSize` requests; each promise
  -- made is in one place, waiting, running or settled; the requests that are not started are the latest
  -- ones in their order; and none waits in the queue while another invocation may start.
  pub Reach-Good : {s : Executor T R X} → IsLimit max_batch → Reach max_batch max_flight s → Good s
  Reach-Good l new = make_limited-Good
  Reach-Good l (later r st) = Step-Good l st (Reach-Good l r)
