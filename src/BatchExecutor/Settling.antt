-- ===== src/BatchExecutor/Settling.antt =====
-- `runChunk` of src/BatchExecutor.ts: which promise gets which outcome.
use vjuga.Base.{
  ℕ, zero, suc, ◌≡◌, refl, Option, none, some, List, [], ◌∷◌, ◌++◌, ◌==◌, if◌then◌else◌, arith, ap,
  sym, ◌∙◌, length, get_elem?, Bool-cases, inl, inr,
}
use vjuga.BatchExecutor.{
  Request, Reason, given, mismatch, unreadable_status, Settled, fulfilled, rejected, Item, value,
  reason, unreadable, Outcome, returned, failed, reject_all, settle_each, run_chunk,
}

module _ {T : Type 0} where
  abbrev pub ids : List (Request T) → List ℕ
  ids [] = []
  ids (a ∷ args) = a.promise ∷ ids args

  pub ids-append : (xs ys : List (Request T)) → ids (xs ++ ys) ≡ ids xs ++ ids ys
  ids-append [] ys = refl
  ids-append (x ∷ xs) ys = ap (λ l. x.promise ∷ l) (ids-append xs ys)

  pub length-ids : (xs : List (Request T)) → length (ids xs) ≡ length xs
  length-ids [] = refl
  length-ids (x ∷ xs) = ap suc (length-ids xs)

module _ {S : Type 0} where
  abbrev pub promises_of : List (ℕ × S) → List ℕ
  promises_of [] = []
  promises_of (p ∷ ps) = p.0 ∷ promises_of ps

  pub promises_of-append :
      (xs ys : List (ℕ × S)) → promises_of (xs ++ ys) ≡ promises_of xs ++ promises_of ys
  promises_of-append [] ys = refl
  promises_of-append (x ∷ xs) ys = ap (λ l. x.0 ∷ l) (promises_of-append xs ys)

  pub length-promises_of : (xs : List (ℕ × S)) → length (promises_of xs) ≡ length xs
  length-promises_of [] = refl
  length-promises_of (x ∷ xs) = ap suc (length-promises_of xs)

module _ {R X : Type 0} where
  -- the outcome that the results give the promise at `i`: none from the first unreadable one on
  unfoldable pub result_at : List (Item R X) → ℕ → Settled R X
  result_at [] i = rejected unreadable_status
  result_at (unreadable ∷ items) i = rejected unreadable_status
  result_at (value r ∷ items) zero = fulfilled r
  result_at (reason x ∷ items) zero = rejected (given x)
  result_at (value r ∷ items) (suc i) = result_at items i
  result_at (reason x ∷ items) (suc i) = result_at items i

  -- the outcome of the promise at `i` of a chunk of `n`
  unfoldable pub outcome_at : Outcome R X → ℕ → ℕ → Settled R X
  outcome_at (failed x) n i = rejected (given x)
  outcome_at (returned items) n i =
      if length items == n then result_at items i else rejected (mismatch (length items) n)

module _ {T X : Type 0} (R : Type 0) where
  reject_all-promises :
      (e : Reason X) (args : List (Request T)) → promises_of (reject_all {R = R} e args) ≡ ids args
  unfolding reject_all
  reject_all-promises e [] = refl
  reject_all-promises e (a ∷ args) = ap (λ l. a.promise ∷ l) (reject_all-promises e args)

module _ {T R X : Type 0} where
  settle_each-promises :
      (args : List (Request T)) (items : List (Item R X))
      → length items ≡ length args
      → promises_of (settle_each args items) ≡ ids args
  unfolding settle_each
  settle_each-promises [] items h = refl
  settle_each-promises (a ∷ args) [] h = absurd (omega (arith, h))
  settle_each-promises (a ∷ args) (value r ∷ items) h =
      ap (λ l. a.promise ∷ l) (settle_each-promises args items (omega (arith, h)))
  settle_each-promises (a ∷ args) (reason x ∷ items) h =
      ap (λ l. a.promise ∷ l) (settle_each-promises args items (omega (arith, h)))
  settle_each-promises (a ∷ args) (unreadable ∷ items) h =
      reject_all-promises R unreadable_status (a ∷ args)

  -- Each promise of the chunk is settled once, in the order of the chunk.
  pub run_chunk-promises :
      (args : List (Request T)) (o : Outcome R X) → promises_of (run_chunk args o) ≡ ids args
  unfolding run_chunk
  run_chunk-promises args (failed x) = reject_all-promises R (given x) args
  run_chunk-promises args (returned items) = elim (Bool-cases (length items == length args)) [
    | inl e ↦ rw e (settle_each-promises args items (ground (arith, e)))
    | inr e ↦ rw e (reject_all-promises R (mismatch (length items) (length args)) args)
  ]

  pub length-run_chunk :
      (args : List (Request T)) (o : Outcome R X) → length (run_chunk args o) ≡ length args
  length-run_chunk args o =
      sym (length-promises_of (run_chunk args o))
      ∙ ap length (run_chunk-promises args o)
      ∙ length-ids args

  reject_all-at :
      (e : Reason X) (args : List (Request T)) (i : ℕ) (a : Request T)
      → get_elem? args i ≡ some a
      → get_elem? (reject_all {R = R} e args) i ≡ some (a.promise, rejected e)
  unfolding reject_all
  reject_all-at e [] i a h = absurd (ground arith)
  reject_all-at e (b ∷ args) zero a h =
      ap
        (λ (o : Option (Request T)). elim o [ none ↦ none | some r ↦ some (r.promise, rejected e) ])
        h
  reject_all-at e (b ∷ args) (suc i) a h = reject_all-at e args i a h

  settle_each-at :
      (args : List (Request T)) (items : List (Item R X)) (i : ℕ) (a : Request T)
      → length items ≡ length args
      → get_elem? args i ≡ some a
      → get_elem? (settle_each args items) i ≡ some (a.promise, result_at items i)
  unfolding settle_each result_at
  settle_each-at [] items i a n h = absurd (ground arith)
  settle_each-at (b ∷ args) [] i a n h = absurd (omega (arith, n))
  settle_each-at (b ∷ args) (unreadable ∷ items) i a n h =
      reject_all-at unreadable_status (b ∷ args) i a h
  settle_each-at (b ∷ args) (value r ∷ items) zero a n h =
      ap
        (λ (o : Option (Request T)). elim o [
          | none ↦ none
          | some q ↦ some (q.promise, fulfilled r)
        ])
        h
  settle_each-at (b ∷ args) (reason x ∷ items) zero a n h =
      ap
        (λ (o : Option (Request T)). elim o [
          | none ↦ none
          | some q ↦ some (q.promise, rejected (given x))
        ])
        h
  settle_each-at (b ∷ args) (value r ∷ items) (suc i) a n h =
      settle_each-at args items i a (omega (arith, n)) h
  settle_each-at (b ∷ args) (reason x ∷ items) (suc i) a n h =
      settle_each-at args items i a (omega (arith, n)) h

  -- `runChunk` settles each promise of the chunk once, in order. If `fn` returns as many results as it
  -- got requests, the promise at `i` is settled by the i-th result, fulfilled if its status says so and
  -- else rejected for its reason, unless one of the results up to there is `undefined` or `null`, so
  -- that its status cannot be read: from such a result on every promise is rejected. All are rejected
  -- if the number is wrong or `fn` fails.
  pub run_chunk-outcomes :
      (args : List (Request T)) (o : Outcome R X) (i : ℕ) (a : Request T)
      → get_elem? args i ≡ some a
      → (promises_of (run_chunk args o) ≡ ids args)
        × (get_elem? (run_chunk args o) i ≡ some (a.promise, outcome_at o (length args) i))
  unfolding run_chunk outcome_at
  run_chunk-outcomes args (failed x) i a h =
      (run_chunk-promises args (failed x), reject_all-at (given x) args i a h)
  run_chunk-outcomes args (returned items) i a h = (
    run_chunk-promises args (returned items),
    elim (Bool-cases (length items == length args)) [
      | inl e ↦ rw e (settle_each-at args items i a (ground (arith, e)) h)
      | inr e ↦ rw e (reject_all-at (mismatch (length items) (length args)) args i a h)
    ],
  )
