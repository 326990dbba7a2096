-- ===== src/BatchExecutor/Unlimited.antt =====
-- `make` of src/BatchExecutor.ts: its options, and the executor without limits, whose batches are not
-- split and do not wait.
use vjuga.Base.{ℕ, ◌+◌, ◌≤◌, ◌≡◌, Option, none, some, List, [], ◌∷◌, ◌++◌, arith, subst, length}
use vjuga.BufferizedFunction.{Buffered, bufferized_fn, worker}
use vjuga.BufferizedFunction
use vjuga.BatchExecutor.{
  Number, undefined, infinity, other, integer, Limit, limit, range_error, validate_limit, Request,
  Settled, Outcome, run_chunk, Executor,
}
use vjuga.BatchExecutor.Pumping.{IsLimit, IsWithin, AllWithin}
use vjuga.BatchExecutor.Steps.{Reach, Reach-Good}

-- `options`: none or a mode of scheduling, or an object with two limits
pub data Options : Type 0 where
  mode : Options
  limits : Number → Number → Options

-- which executor `make` returns, or its `RangeError`
pub data Made : Type 0 where
  unlimited : Made
  limited : Option ℕ → Option ℕ → Made
  throws : Made

unfoldable pub choose_path : Limit → Limit → Made
choose_path range_error in_flight = throws
choose_path (limit b) range_error = throws
choose_path (limit none) (limit none) = unlimited
choose_path (limit none) (limit (some f)) = limited none (some f)
choose_path (limit (some b)) (limit f) = limited (some b) f

unfoldable pub make : Options → Made
make mode = unlimited
make (limits max_batch_size max_in_flight) =
    choose_path (validate_limit max_batch_size) (validate_limit max_in_flight)

pub record Unlimited (T R X : Type 0) : Type 0 where
  pub buffer : Buffered (Request T)
  pub running : List (List (Request T))
  pub settled : List (ℕ × Settled R X)
  pub promises : ℕ

module _ {T R X : Type 0} where
  unfoldable pub make_unlimited : Unlimited T R X
  make_unlimited = record {
    buffer = BufferizedFunction.make;
    running = [];
    settled = [];
    promises = 0;
  }

  -- a call of the function that `make` returns
  unfoldable pub call : Unlimited T R X → T → Unlimited T R X
  call u arg = record u {
    buffer = bufferized_fn u.buffer (record { arg = arg; promise = u.promises } ∷ []);
    promises = u.promises + 1;
  }

  -- the timer runs the worker, which invokes `fn` with the batch
  unfoldable pub invoke : Unlimited T R X → Unlimited T R X
  invoke u =
      let (args, buffer) = worker u.buffer in
      record u { buffer = buffer; running = u.running ++ args ∷ [] }

  -- the invocation of `args` ends
  unfoldable pub settle :
      Unlimited T R X → List (List (Request T)) → List (Request T) → Outcome R X → Unlimited T R X
  settle u others args outcome = record u {
    running = others;
    settled = u.settled ++ run_chunk args outcome;
  }

-- what an option asks of a number of invocations or of requests
abbrev pub AtMost : ℕ → Number → Type 0
AtMost n undefined = Unit
AtMost n infinity = Unit
AtMost n other = ⊥
AtMost n (integer k) = (1 ≤ k) × (n ≤ k)

-- the option sets no limit
abbrev pub IsUnbounded : Number → Type 0
IsUnbounded undefined = Unit
IsUnbounded infinity = Unit
IsUnbounded other = ⊥
IsUnbounded (integer k) = ⊥

module _ {T : Type 0} where
  -- every invocation is of one request at least, and of what the option asks at most
  abbrev pub BatchesAtMost : List (List (Request T)) → Number → Type 0
  BatchesAtMost [] max = Unit
  BatchesAtMost (c ∷ cs) max = (1 ≤ length c) × AtMost (length c) max × BatchesAtMost cs max

-- the option `x` is accepted as the limit `l`
abbrev Means : Number → Option ℕ → Type 0
Means undefined l = l ≡ none
Means infinity l = l ≡ none
Means other l = ⊥
Means (integer k) l = (1 ≤ k) × (l ≡ some k)

validate_limit-Means : (x : Number) (l : Option ℕ) → validate_limit x ≡ limit l → Means x l
validate_limit-Means undefined l e = ground arith
validate_limit-Means infinity l e = ground arith
validate_limit-Means other l e = absurd (ground arith)
validate_limit-Means (integer k) l e = ground arith

choose_path-limited :
    (x y : Limit) (b f : Option ℕ)
    → choose_path x y ≡ limited b f
    → (x ≡ limit b) × (y ≡ limit f) × ((b ≡ none) → (f ≡ none) → ⊥)
unfolding choose_path
choose_path-limited range_error y b f e = absurd (ground arith)
choose_path-limited (limit x) range_error b f e = absurd (ground arith)
choose_path-limited (limit none) (limit none) b f e = absurd (ground arith)
choose_path-limited (limit none) (limit (some y)) b f e =
    (ground arith, ground arith, λ p q. absurd (ground (arith, p, q)))
choose_path-limited (limit (some x)) (limit y) b f e =
    (ground arith, ground arith, λ p q. absurd (ground (arith, p, q)))

Means-IsLimit : (x : Number) (l : Option ℕ) → Means x l → IsLimit l
Means-IsLimit undefined l m = rw m tt
Means-IsLimit infinity l m = rw m tt
Means-IsLimit other l m = absurd m
Means-IsLimit (integer k) l m = rw m.1 m.0

Means-AtMost : (n : ℕ) (x : Number) (l : Option ℕ) → Means x l → IsWithin n l → AtMost n x
Means-AtMost n undefined l m w = tt
Means-AtMost n infinity l m w = tt
Means-AtMost n other l m w = m
Means-AtMost n (integer k) l m w = (m.0, subst (IsWithin n) m.1 w)

Means-none : (x : Number) (l : Option ℕ) → Means x l → IsUnbounded x → l ≡ none
Means-none undefined l m u = m
Means-none infinity l m u = m
Means-none other l m u = absurd u
Means-none (integer k) l m u = absurd u

module _ {T : Type 0} where
  Means-BatchesAtMost :
      (cs : List (List (Request T))) (x : Number) (l : Option ℕ)
      → Means x l
      → AllWithin l cs
      → BatchesAtMost cs x
  Means-BatchesAtMost [] x l m a = tt
  Means-BatchesAtMost (c ∷ cs) x l m a =
      (a.0, Means-AtMost (length c) x l m a.1, Means-BatchesAtMost cs x l m a.2)

module _ {T R X : Type 0} where
  -- When `make` of two options returns an executor with limits, then in every state that this one
  -- reaches the invocations that run are at most as many as the option `maxInFlight` says, and each is
  -- of one request at least and of at most as many as `maxBatchSize` says, where an option is
  -- `undefined` or `Infinity`, for no limit, or an integer from 1 on; and the two are not both without
  -- limit.
  pub make-obeyed :
      (max_batch_size max_in_flight : Number) (b f : Option ℕ) (s : Executor T R X)
      → make (limits max_batch_size max_in_flight) ≡ limited b f
      → Reach b f s
      → AtMost (length s.running) max_in_flight
        × BatchesAtMost s.running max_batch_size
        × ¬ (IsUnbounded max_batch_size × IsUnbounded max_in_flight)
  unfolding make
  make-obeyed x y b f s e r =
      let c = choose_path-limited (validate_limit x) (validate_limit y) b f e in
      let m = validate_limit-Means x b c.0 in
      let n = validate_limit-Means y f c.1 in
      let i = (Reach-Good b f (Means-IsLimit x b m) r).0 in
      (
        Means-AtMost (length s.running) y f n
            (subst (λ k. IsWithin k f) i.flight_is i.flight_within),
        Means-BatchesAtMost s.running x b m i.chunks_within,
        λ u. c.2 (Means-none x b m u.0) (Means-none y f n u.1),
      )
