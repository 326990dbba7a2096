-- ===== src/Result.antt =====
-- src/Result.ts: a value or an error as a tagged pair. The caller's functions act on a world `W` and
-- return or throw a value of `X`, any JavaScript value; a function that calls one does so too.
mod Laws
mod Tests
use vjuga.Base.{Bool, true, false, Option, none, some, if◌then◌else◌}
use Prim.Native.String.{String}

-- the pairs `[true, value]` and `[false, error]`
pub data Result (T E : Type 0) : Type 0 where
  ok : T → Result T E
  err : E → Result T E

-- how a call ends
pub data Outcome (X A : Type 0) : Type 0 where
  returns : A → Outcome X A
  throws : X → Outcome X A

-- a call in a world, with the world it leaves
abbrev pub Call : Type 0 → Type 0 → Type 0 → Type 0
Call W X A = W → Outcome X A × W

module _ {T E : Type 0} where
  unfoldable pub is_ok : Result T E → Bool
  is_ok (ok value) = true
  is_ok (err e) = false

  unfoldable pub is_err : Result T E → Bool
  is_err (ok value) = false
  is_err (err e) = true

  unfoldable pub unwrap_or : Result T E → T → T
  unwrap_or (ok value) fallback = value
  unwrap_or (err e) fallback = fallback

module _ {W X : Type 0} where
  -- a call whose value is wrapped
  unfoldable pub wrap : {A B : Type 0} → (A → B) → Outcome X A × W → Outcome X B × W
  wrap f (returns a, w) = (returns (f a), w)
  wrap f (throws x, w) = (throws x, w)

  unfoldable pub map : {T U E : Type 0} → Result T E → (T → Call W X U) → Call W X (Result U E)
  map (ok value) fn w = wrap ok (fn value w)
  map (err e) fn w = (returns (err e), w)

  unfoldable pub map_err : {T E F : Type 0} → Result T E → (E → Call W X F) → Call W X (Result T F)
  map_err (ok value) fn w = (returns (ok value), w)
  map_err (err e) fn w = wrap err (fn e w)

  unfoldable pub flat_map :
      {T U E : Type 0} → Result T E → (T → Call W X (Result U E)) → Call W X (Result U E)
  flat_map (ok value) fn w = fn value w
  flat_map (err e) fn w = (returns (err e), w)

  -- what is caught, mapped if there is a mapper; its own throw is not caught
  unfoldable pub caught :
      {T : Type 0} → Option (X → Call W X X) → Outcome X T × W → Outcome X (Result T X) × W
  caught map_err_fn (returns a, w) = (returns (ok a), w)
  caught none (throws x, w) = (returns (err x), w)
  caught (some map_err_fn) (throws x, w) = wrap err (map_err_fn x w)

  unfoldable pub from_throwable :
      {T : Type 0} → Call W X T → Option (X → Call W X X) → Call W X (Result T X)
  from_throwable fn map_err_fn w = caught map_err_fn (fn w)

-- `is_error` is `instanceof Error`, `to_string` is `String(value)`, which may act and throw, and
-- `new_error` is `new Error(message, { cause })`.
module _ {W X : Type 0} (is_error : X → Bool) (to_string : X → Call W X String)
    (new_error : String → X → X) where
  -- the `try` of `safeString` and its `catch`
  unfoldable pub end_string : Outcome X String × W → String × W
  end_string (returns text, w) = (text, w)
  end_string (throws x, w) = ("Result is Err (payload is not stringifiable)", w)

  unfoldable pub safe_string : X → W → String × W
  safe_string value w = end_string (to_string value w)

  -- the throw of a payload in an error of its own
  unfoldable pub throw_new : {T : Type 0} → X → String × W → Outcome X T × W
  throw_new payload (text, w) = (throws (new_error text payload), w)

  unfoldable pub unwrap : {T : Type 0} → Result T X → Call W X T
  unwrap (ok value) w = (returns value, w)
  unwrap (err payload) w =
      if is_error payload then (throws payload, w) else throw_new payload (safe_string payload w)
