-- ===== src/Result/Tests.antt =====
-- Runs of src/Result.ts, and its theorem there.
use vjuga.Base.{ℕ, ◌+◌, ◌≡◌, refl, Bool, true, false, Option, none, some, ◌==◌, if◌then◌else◌}
use Prim.Native.String.{String}
use vjuga.Result.{
  err, returns, throws, Call, from_throwable, caught, unwrap, safe_string, end_string, throw_new,
}
use vjuga.Result.Laws.{next, Rethrows, rethrown, from_throwable-unwrap}

-- a number, or an error with a message and a cause
data Value : Type 0 where
  plain : ℕ → Value
  error : String → Value → Value

abbrev is_error : Value → Bool
is_error (plain n) = false
is_error (error text x) = true

abbrev cause : Value → Option Value
cause (plain n) = none
cause (error text x) = some x

-- 13 cannot be a string
abbrev to_string : Value → Call ℕ Value String
to_string (plain n) w = if n == 13 then (throws (plain 0), w + 1) else (returns "7", w + 1)
to_string (error text x) w = (returns text, w)

abbrev failed : ℕ → Call ℕ Value ℕ
failed n w = (throws (plain n), w + 10)

failed_wrapped : from_throwable (failed 7) none 4 ≡ (returns (err (plain 7)), 14)
unfolding from_throwable caught
failed_wrapped = refl

seven_thrown : rethrown is_error to_string error (failed 7) 4 ≡ (throws (error "7" (plain 7)), 15)
unfolding rethrown next unwrap from_throwable caught safe_string end_string throw_new
seven_thrown = refl

unlucky_thrown :
    rethrown is_error to_string error (failed 13) 4
    ≡ (throws (error "Result is Err (payload is not stringifiable)" (plain 13)), 15)
unfolding rethrown next unwrap from_throwable caught safe_string end_string throw_new
unlucky_thrown = refl

from_throwable-unwrap_example :
    (let once = rethrown is_error to_string error in
      Rethrows is_error cause (failed 7 4).0 (once (failed 7) 4).0
      × (once (once (failed 7)) 4 ≡ once (failed 7) 4))
from_throwable-unwrap_example =
    from_throwable-unwrap is_error to_string error cause (λ t x. refl) (λ t x. refl) (failed 7) 4
