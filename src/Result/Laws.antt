-- ===== src/Result/Laws.antt =====
-- `fromThrowable` of src/Result.ts and `unwrap` one after the other: what is caught is thrown again.
use vjuga.Base.{
  ◌≡◌, refl, ap, sym, ◌∙◌, Bool, true, false, Option, none, some, ◌⊎◌, inl, inr, Bool-cases,
}
use Prim.Native.String.{String}
use vjuga.Result.{
  Outcome, returns, throws, Call, caught, from_throwable, safe_string, throw_new, unwrap,
}

module _ {W X : Type 0} where
  -- the next call, unless the first one has thrown
  unfoldable pub next : {A B : Type 0} → (A → Call W X B) → Outcome X A × W → Outcome X B × W
  next f (returns a, w) = f a w
  next f (throws x, w) = (throws x, w)

module _ {X : Type 0} (is_error : X → Bool) (cause : X → Option X) where
  -- How a call ends that catches and unwraps what another one does: it returns the same value, or
  -- throws an `Error`, which is the one thrown or, if that is no `Error`, has it as its cause.
  abbrev pub Rethrows : {T : Type 0} → Outcome X T → Outcome X T → Type 0
  Rethrows (returns a) o = o ≡ returns a
  Rethrows (throws x) o =
      (e : X) × (o ≡ throws e)
      × (is_error e ≡ true)
      × ((e ≡ x) ⊎ ((is_error x ≡ false) × (cause e ≡ some x)))

module _ {W X : Type 0} (is_error : X → Bool) (to_string : X → Call W X String)
    (new_error : String → X → X) where
  -- `unwrap` of what `fromThrowable` makes of a call
  unfoldable pub rethrown : {T : Type 0} → Call W X T → Call W X T
  rethrown fn w = next (unwrap is_error to_string new_error) (from_throwable fn none w)

  -- the error that holds a payload
  abbrev wrapped : X → W → X
  wrapped x w = new_error (safe_string is_error to_string new_error x w).0 x

  module _ {T : Type 0} where
    abbrev again : Outcome X T × W → Outcome X T × W
    again o = next (unwrap is_error to_string new_error) (caught none o)

    again-error : (x : X) (w : W) → is_error x ≡ true → again (throws x, w) ≡ (throws x, w)
    unfolding next unwrap caught
    again-error x w own = rw own refl

    again-other :
        (x : X) (w : W)
        → is_error x ≡ false
        → again (throws x, w)
          ≡ (throws (wrapped x w), (safe_string is_error to_string new_error x w).1)
    unfolding next unwrap caught throw_new
    again-other x w other = rw other refl

    module _ (cause : X → Option X) where
      passes :
          (x e : X) (w v : W)
          → again (throws x, w) ≡ (throws e, v)
          → is_error e ≡ true
          → (e ≡ x) ⊎ ((is_error x ≡ false) × (cause e ≡ some x))
          → Rethrows is_error cause (throws x) (again (throws x, w)).0
            × (again (again (throws x, w)) ≡ again (throws x, w))
      passes x e w v q i c =
          ((e, ap (λ o. o.0) q, i, c), ap (λ o. again o) q ∙ again-error e v i ∙ sym q)

      module _ (new-is_error : (text : String) (x : X) → is_error (new_error text x) ≡ true)
          (new-cause : (text : String) (x : X) → cause (new_error text x) ≡ some x) where
        once-and-again :
            (o : Outcome X T × W)
            → Rethrows is_error cause o.0 (again o).0 × (again (again o) ≡ again o)
        once-and-again (returns a, w) = unfold next unwrap caught in (refl, refl)
        once-and-again (throws x, w) = elim (Bool-cases (is_error x)) [
          | inl own ↦ passes x x w w (again-error x w own) own (inl refl)
          | inr other ↦
              passes x (wrapped x w) w _ (again-other x w other) (new-is_error _ x)
                (inr (other, new-cause _ x))
        ]

        -- `unwrap` of `fromThrowable` without a mapper returns what the function does. If the function
        -- throws, it throws an `Error`: the one thrown or, if that is no `Error`, a new one with that
        -- as its cause. And a second `fromThrowable` and `unwrap` around the two change nothing more:
        -- what the first has thrown passes as it is, with no more effects. A new `Error` is assumed
        -- to be an `Error` and to have the cause given.
        pub from_throwable-unwrap :
            (fn : Call W X T) (w : W)
            → Rethrows is_error cause (fn w).0 (rethrown fn w).0
              × (rethrown (rethrown fn) w ≡ rethrown fn w)
        unfolding from_throwable rethrown
        from_throwable-unwrap fn w = once-and-again (fn w)
