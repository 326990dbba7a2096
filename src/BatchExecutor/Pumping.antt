-- ===== src/BatchExecutor/Pumping.antt =====
-- `pump` of src/BatchExecutor.ts and what holds of the executor between its steps.
use mathlib.Core.List.{append_assoc, append-nil}
use vjuga.Base.{
  ℕ, zero, suc, ◌+◌, ◌≤◌, ◌<◌, ◌≡◌, true, false, Option, none, some, List, [], ◌∷◌, ◌++◌, ltb,
  if◌then◌else◌, arith, ap, ap₂, sym, ◌∙◌, subst, length, drop, length-append, Bool-cases, ◌⊎◌, inl,
  inr, ◌&&◌, ltb→lt, ltb→ge,
}
use vjuga.Base.Counts.{occurs, occurs-append}
use vjuga.BatchExecutor.{Request, Executor, below, within, take_chunk, start, pump_loop, pump}
use vjuga.BatchExecutor.Settling.{ids, ids-append, length-ids, promises_of}
use vjuga.BatchExecutor.Taking.{
  concat, concat-append, waiting, IsFront, IsTaken, take_chunk-IsTaken,
}

-- the numbers from `a` on
abbrev pub numbers : ℕ → ℕ → List ℕ
numbers a zero = []
numbers a (suc n) = a ∷ numbers (suc a) n

abbrev pub IsWithin : ℕ → Option ℕ → Type 0
IsWithin n none = Unit
IsWithin n (some m) = n ≤ m

-- a limit that `validateLimit` accepts
abbrev pub IsLimit : Option ℕ → Type 0
IsLimit none = Unit
IsLimit (some m) = 1 ≤ m

module _ {T : Type 0} where
  abbrev pub AllWithin : Option ℕ → List (List (Request T)) → Type 0
  AllWithin max [] = Unit
  AllWithin max (c ∷ cs) = (1 ≤ length c) × IsWithin (length c) max × AllWithin max cs

  pub AllWithin-append :
      (max : Option ℕ) (xs ys : List (List (Request T)))
      → AllWithin max xs
      → AllWithin max ys
      → AllWithin max (xs ++ ys)
  AllWithin-append max [] ys a b = b
  AllWithin-append max (x ∷ xs) ys a b = (a.0, a.1, AllWithin-append max xs ys a.2 b)

numbers-drop :
    (xs ys : List ℕ) (a n k : ℕ)
    → n ≡ length xs + k
    → xs ++ ys ≡ numbers a n
    → ys ≡ numbers (a + length xs) k
numbers-drop [] ys a n k e h = h ∙ ap₂ numbers (omega arith) (omega (arith, e))
numbers-drop (x ∷ xs) ys a zero k e h = absurd (omega (arith, e))
numbers-drop (x ∷ xs) ys a (suc n) k e h =
    numbers-drop xs ys (suc a) n k (omega (arith, e)) (ap (drop 1) h)
    ∙ ap (λ z. numbers z k) (omega arith)

within-bounds :
    (n : ℕ) (max : Option ℕ)
    → IsLimit max
    → 1 ≤ n
    → (1 ≤ within n max) × (within n max ≤ n) × IsWithin (within n max) max
within-bounds n none l p = (p, omega arith, tt)
within-bounds n (some m) l p = ground arith

below-IsWithin : (n : ℕ) (max : Option ℕ) → below n max ≡ true → IsWithin (n + 1) max
below-IsWithin n none b = tt
below-IsWithin n (some m) b = ground (arith, b)

module _ {T R X : Type 0} where
  abbrev pub waits : Executor T R X → List (Request T)
  waits s = waiting s.head s.pending

  -- how often a promise waits in the buffer or the queue, is in a running chunk, or is settled
  abbrev pub places : Executor T R X → ℕ → ℕ
  places s x =
      occurs x (ids s.buffer.queue)
      + occurs x (ids (waits s))
      + occurs x (ids (concat s.running))
      + occurs x (promises_of s.settled)

  -- What holds between the steps, and inside `pump`: the counts are those of the requests that wait and
  -- of the chunks that run, the limits are kept, a timer is pending exactly if one is due, each promise
  -- is in one place, and the requests that are not started are the latest ones in their order.
  pub record Inv (max_batch max_flight : Option ℕ) (s : Executor T R X) : Type 0 where
    pub queued_is : s.queued ≡ length (waits s)
    pub front : IsFront s.head s.pending
    pub flight_is : s.in_flight ≡ length s.running
    pub flight_within : IsWithin s.in_flight max_flight
    pub chunks_within : AllWithin max_batch s.running
    pub timer_is : s.buffer.timers ≡ (if s.buffer.scheduled then 1 else 0)
    pub idle : s.buffer.scheduled ≡ false → s.buffer.queue ≡ []
    pub due : s.buffer.scheduled ≡ true → 1 ≤ length s.buffer.queue
    pub once : (x : ℕ) → places s x ≡ (if ltb x s.promises then 1 else 0)
    pub total :
        length s.buffer.queue + length (waits s) + length (concat s.running) + length s.settled
        ≡ s.promises
    pub first : ℕ
    pub in_order :
        ids (waits s) ++ ids s.buffer.queue
        ≡ numbers first (length (waits s) + length s.buffer.queue)
    pub newest : first + (length (waits s) + length s.buffer.queue) ≡ s.promises

  -- nothing waits in the queue while another invocation may start
  abbrev pub IsFull : Option ℕ → Executor T R X → Type 0
  IsFull max_flight s = (s.queued ≡ 0) ⊎ (below s.in_flight max_flight ≡ false)

  module _ (max_batch max_flight : Option ℕ) where
    pub start-Inv :
        (s : Executor T R X)
        → IsLimit max_batch
        → 1 ≤ s.queued
        → below s.in_flight max_flight ≡ true
        → Inv max_batch max_flight s
        → Inv max_batch max_flight (start max_batch max_flight s)
          × ((start max_batch max_flight s).queued < s.queued)
    unfolding start
    start-Inv s l p b i = (
      record {
        queued_is = omega (arith, i.queued_is, t.1, lengths);
        front = t.2;
        flight_is = omega (arith, i.flight_is, length-append s.running (chunk ∷ []));
        flight_within = below-IsWithin s.in_flight max_flight b;
        chunks_within =
            AllWithin-append max_batch s.running (chunk ∷ []) i.chunks_within
              (omega (arith, t.1, w.0), subst (λ z. IsWithin z max_batch) (sym t.1) w.2, tt);
        timer_is = i.timer_is;
        idle = i.idle;
        due = i.due;
        once = λ x. omega (arith, i.once x, moved x, ran x);
        total =
            omega
              (arith, i.total, lengths, ap length ran_list, length-append (concat s.running) chunk);
        first = i.first + length (ids chunk);
        in_order =
            numbers-drop (ids chunk) (ids rest ++ ids s.buffer.queue) i.first _ _
              (omega (arith, lengths, length-ids chunk))
              (sym (append_assoc (ids chunk) (ids rest) (ids s.buffer.queue))
                ∙ ap (λ z. z ++ ids s.buffer.queue) (sym (ids-append chunk rest) ∙ ap ids t.0)
                ∙ i.in_order);
        newest = omega (arith, i.newest, lengths, length-ids chunk);
      },
      omega (arith, p, w.0),
    )
      where
        n : ℕ
        n = within s.queued max_batch

        out : List (Request T) × ℕ × List (List (Request T))
        out = take_chunk n s.head s.pending

        chunk : List (Request T)
        chunk = out.0

        rest : List (Request T)
        rest = waiting out.1 out.2

        w : (1 ≤ n) × (n ≤ s.queued) × IsWithin n max_batch
        w = within-bounds s.queued max_batch l p

        t : IsTaken n s.head s.pending out
        t = take_chunk-IsTaken n s.head s.pending (omega (arith, w.1, i.queued_is)) i.front w.0

        lengths : length chunk + length rest ≡ length (waits s)
        lengths = sym (length-append chunk rest) ∙ ap length t.0

        moved : (x : ℕ) → occurs x (ids (waits s)) ≡ occurs x (ids chunk) + occurs x (ids rest)
        moved x =
            ap (λ z. occurs x z) (ap ids (sym t.0) ∙ ids-append chunk rest)
            ∙ occurs-append x (ids chunk) (ids rest)

        ran_list : concat (s.running ++ chunk ∷ []) ≡ concat s.running ++ chunk
        ran_list =
            concat-append s.running (chunk ∷ [])
            ∙ ap (λ z. concat s.running ++ z) (append-nil chunk)

        ran :
            (x : ℕ)
            → occurs x (ids (concat (s.running ++ chunk ∷ [])))
              ≡ occurs x (ids (concat s.running)) + occurs x (ids chunk)
        ran x =
            ap (λ z. occurs x z) (ap ids ran_list ∙ ids-append (concat s.running) chunk)
            ∙ occurs-append x (ids (concat s.running)) (ids chunk)

    pub pump_loop-Inv :
        (fuel : ℕ) (s : Executor T R X)
        → IsLimit max_batch
        → s.queued ≤ fuel
        → Inv max_batch max_flight s
        → Inv max_batch max_flight (pump_loop max_batch max_flight fuel s)
          × IsFull max_flight (pump_loop max_batch max_flight fuel s)
    unfolding pump_loop
    pump_loop-Inv zero s l f i = (i, inl (omega (arith, f)))
    pump_loop-Inv (suc fuel) s l f i = elim (Bool-cases (below s.in_flight max_flight)) [
      | inr e ↦ rw (e, ◌&&◌) (i, inr e)
      | inl e ↦ elim (Bool-cases (ltb 0 s.queued)) [
        | inr g ↦ rw (e, g, ◌&&◌) (i, inl (omega (arith, ltb→ge _ _ g)))
        | inl g ↦
            let t = start-Inv s l (ltb→lt _ _ g) e i in
            rw (e, g, ◌&&◌)
              (pump_loop-Inv fuel (start max_batch max_flight s) l (omega (arith, t.1, f)) t.0)
      ]
    ]

    pub pump-Inv :
        (s : Executor T R X)
        → IsLimit max_batch
        → Inv max_batch max_flight s
        → Inv max_batch max_flight (pump max_batch max_flight s)
          × IsFull max_flight (pump max_batch max_flight s)
    unfolding pump
    pump-Inv s l i = pump_loop-Inv s.queued s l (omega arith) i
