-- ===== src/ErrorChain.antt =====
-- src/ErrorChain.ts: the walks over the causes of an error. An object is its reference, a number.
-- `cause` gives the cause of one, `none` if that is not an instance of this realm's `Error`, and
-- `is_error` is that test of the argument. A loop is on fuel, and its result is `none` if the fuel ends.
pub mod Orbit
pub mod Cycle
pub mod Walk
pub mod Search
mod Tests
use vjuga.Base.{
  ℕ, zero, suc, ◌+◌, ◌*◌, Bool, true, false, Option, none, some, List, [], ◌∷◌, ◌++◌, ◌==◌,
  if◌then◌else◌, take, ◌>>=◌,
}

-- `===` of errors, or of values of which one is not an error
abbrev pub same : Option ℕ → Option ℕ → Bool
same none b = false
same (some a) none = false
same (some a) (some b) = a == b

module _ (cause : ℕ → Option ℕ) where
  -- `e.cause as Error`
  abbrev pub next : Option ℕ → Option ℕ
  next none = none
  next (some e) = cause e

  unfoldable pub advance : ℕ → Option ℕ → Option ℕ
  advance zero hare = hare
  advance (suc n) hare = advance n (next hare)

  unfoldable pub meet_loop : ℕ → Option ℕ → Option ℕ → ℕ → Option ℕ
  meet_loop zero tortoise hare mu = none
  meet_loop (suc fuel) tortoise hare mu =
      let rest = meet_loop fuel (next tortoise) (next hare) (mu + 1) in
      if same tortoise hare then some mu else rest

  unfoldable pub distinct_count : ℕ → ℕ → ℕ → Option ℕ
  distinct_count fuel error lambda =
      meet_loop fuel (some error) (advance lambda (some error)) 0 >>= λ mu. some (mu + lambda)

  -- the loop of `distinctLength`, for the error `root`
  unfoldable pub length_loop : ℕ → ℕ → Option ℕ → Option ℕ → ℕ → ℕ → ℕ → Option ℕ
  length_loop zero root mark current steps power n = none
  length_loop (suc fuel) root mark none steps power n = some n
  length_loop (suc fuel) root mark (some e) steps power n =
      let moved = length_loop fuel root (some e) (cause e) 1 (power * 2) (n + 1) in
      let rest = length_loop fuel root mark (cause e) (steps + 1) power (n + 1) in
      let found = distinct_count fuel root steps in
      if same (some e) mark then found else (if steps == power then moved else rest)

  unfoldable pub distinct_length : ℕ → ℕ → Option ℕ
  distinct_length fuel error = length_loop fuel error (some error) (cause error) 1 1 1

  -- `n` errors of the chain from `current` on
  unfoldable pub yield_loop : ℕ → Option ℕ → List ℕ
  yield_loop zero current = []
  yield_loop (suc n) none = []
  yield_loop (suc n) (some e) = e ∷ yield_loop n (cause e)

  -- all that the generator yields
  unfoldable pub chain : ℕ → ℕ → Option (List ℕ)
  chain fuel error = distinct_length fuel error >>= λ n. some (yield_loop n (some error))

  unfoldable pub array_loop : ℕ → ℕ → Option ℕ → Option ℕ → ℕ → ℕ → List ℕ → Option (List ℕ)
  array_loop zero root mark current steps power result = none
  array_loop (suc fuel) root mark none steps power result = some result
  array_loop (suc fuel) root mark (some e) steps power result =
      let moved = array_loop fuel root (cause e) (cause e) 0 (power * 2) (result ++ e ∷ []) in
      let rest = array_loop fuel root mark (cause e) (steps + 1) power (result ++ e ∷ []) in
      let found = distinct_count fuel root (steps + 1) in
      if same (cause e) mark
      then found >>= (λ n. some (take n (result ++ e ∷ [])))
      else (if steps + 1 == power then moved else rest)

  -- the loop's first test is of the argument, and the later ones are of causes
  unfoldable pub to_array : (ℕ → Bool) → ℕ → ℕ → Option (List ℕ)
  to_array is_error fuel error =
      array_loop fuel error (some error) (if is_error error then some error else none) 0 1 []

  unfoldable pub find_loop : (ℕ → Bool) → ℕ → Option ℕ → Option ℕ → ℕ → ℕ → Option (Option ℕ)
  find_loop predicate zero mark current steps power = none
  find_loop predicate (suc fuel) mark none steps power = some none
  find_loop predicate (suc fuel) mark (some e) steps power =
      let moved = find_loop predicate fuel (cause e) (cause e) 0 (power * 2) in
      let rest = find_loop predicate fuel mark (cause e) (steps + 1) power in
      if predicate e
      then some (some e)
      else (if same (cause e) mark then some none else (if steps + 1 == power then moved else rest))

  unfoldable pub find : (ℕ → Bool) → (ℕ → Bool) → ℕ → ℕ → Option (Option ℕ)
  find is_error predicate fuel error =
      find_loop predicate fuel (some error) (if is_error error then some error else none) 0 1
