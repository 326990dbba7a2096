-- ===== src/ErrorChain/Orbit.antt =====
-- The chain of src/ErrorChain.ts as a sequence, and the errors of one lap of it.
use native.Mathlib.Nat.{mul-le-mul_left}
use vjuga.Base.{
  ℕ, zero, suc, ◌+◌, ◌-◌, ◌*◌, ◌≤◌, ◌<◌, ◌≡◌, refl, true, Option, none, some, [], ◌∷◌, ◌++◌, arith,
  ap, sym, ◌∙◌, subst, take, ◌⊎◌, inl, inr, lt-cases,
}
use vjuga.ErrorChain.{same, next, advance, yield_loop}

same_refl : (x : Option ℕ) (e : ℕ) → x ≡ some e → same x x ≡ true
same_refl none e h = absurd (ground arith)
same_refl (some a) e h = ground arith

pub same-eq : (x y : Option ℕ) → same x y ≡ true → x ≡ y
same-eq none y h = absurd (ground (arith, h))
same-eq (some a) none h = absurd (ground (arith, h))
same-eq (some a) (some b) h = ap some (ground (arith, h))

pub eq-same : (x y : Option ℕ) (e : ℕ) → x ≡ some e → x ≡ y → same x y ≡ true
eq-same x y e h g = subst (λ z. same x z ≡ true) g (same_refl x e h)

pub far : (n d : ℕ) → 1 ≤ d → n ≤ n * d
far n d h = omega (arith, mul-le-mul_left {m = 1} {n = d} n h)

module _ (cause : ℕ → Option ℕ) where
  pub advance-none : (n : ℕ) → advance cause n none ≡ none
  unfolding advance
  advance-none zero = refl
  advance-none (suc n) = advance-none n

  pub yield-snoc :
      (n : ℕ) (x : Option ℕ) (e : ℕ)
      → advance cause n x ≡ some e
      → yield_loop cause n x ++ e ∷ [] ≡ yield_loop cause (suc n) x
  unfolding yield_loop advance
  yield-snoc zero x e h = rw h refl
  yield-snoc (suc n) none e h = absurd (ground (arith, sym (advance-none n) ∙ h))
  yield-snoc (suc n) (some a) e h = ap (λ l. a ∷ l) (yield-snoc n (cause a) e h)

  pub take-yield :
      (k n : ℕ) (x : Option ℕ) → k ≤ n → take k (yield_loop cause n x) ≡ yield_loop cause k x
  unfolding yield_loop
  take-yield zero n x h = refl
  take-yield (suc k) zero x h = absurd (omega (arith, h))
  take-yield (suc k) (suc n) none h = refl
  take-yield (suc k) (suc n) (some a) h =
      ap (λ l. a ∷ l) (take-yield k n (cause a) (omega (arith, h)))

module _ (cause : ℕ → Option ℕ) (root : ℕ) where
  unfoldable pub path : ℕ → Option ℕ
  path zero = some root
  path (suc n) = next cause (path n)

  pub path-some : (n e : ℕ) → path n ≡ some e → path (suc n) ≡ cause e
  unfolding path
  path-some n e h = ap (next cause) h

  pub path-advance : (n i : ℕ) → advance cause n (path i) ≡ path (i + n)
  unfolding advance path
  path-advance zero i = let e : i ≡ i + 0 = omega arith in ap path e
  path-advance (suc n) i =
      let e : suc i + n ≡ i + suc n = omega arith in path-advance n (suc i) ∙ ap path e

  pub advance-root : (n e : ℕ) → path n ≡ some e → advance cause n (some root) ≡ some e
  unfolding path
  advance-root n e h = path-advance n 0 ∙ (let z : 0 + n ≡ n = omega arith in ap path z) ∙ h

  -- What the chain does from one place on it does from every place with the same error.
  pub path_same : (i j k : ℕ) → path i ≡ path j → path (i + k) ≡ path (j + k)
  path_same i j k h = sym (path-advance k i) ∙ ap (advance cause k) h ∙ path-advance k j

  pub path-none : (i j : ℕ) → path i ≡ none → i ≤ j → path j ≡ none
  path-none i j h l =
      ap path split ∙ sym (path-advance (j - i) i) ∙ ap (advance cause (j - i)) h ∙ stays (j - i)
    where
      split : j ≡ i + (j - i)
      split = omega (arith, l)

      stays : (n : ℕ) → advance cause n none ≡ none
      stays n = advance-none cause n

  -- the place `d` further has the same error
  pub path_laps : (i d k : ℕ) → path (i + d) ≡ path i → path (i + k * d) ≡ path i
  path_laps i d zero h = let e : i + 0 * d ≡ i = omega arith in ap path e
  path_laps i d (suc k) h =
      ap path (turned i d k) ∙ path_same (i + d) i (k * d) h ∙ path_laps i d k h
    where
      turned : (i d k : ℕ) → i + suc k * d ≡ i + d + k * d
      turned i d k = omega arith

  -- One lap: `n` errors, no two the same, after which the chain ends or comes back to one of them.
  pub record IsLap (n : ℕ) : Type 0 where
    pub errors : (a : ℕ) → a < n → path a ≡ none → ⊥
    pub distinct : (a b : ℕ) → a < b → b < n → path a ≡ path b → ⊥
    pub closed : (path n ≡ none) ⊎ ((a : ℕ) × (a < n) × (path n ≡ path a))

  pub IsLap-least :
      (n m : ℕ) → IsLap n → m < n → (path m ≡ none) ⊎ ((a : ℕ) × (a < m) × (path m ≡ path a)) → ⊥
  IsLap-least n m l h (inl e) = l.errors m h e
  IsLap-least n m l h (inr (a, p, e)) = l.distinct a m p h (sym e)

  pub IsLap-unique : (n m : ℕ) → IsLap n → IsLap m → n ≡ m
  IsLap-unique n m l k = elim (lt-cases n m) [
    | inl h ↦ absurd (IsLap-least m n k h l.closed)
    | inr h ↦ elim (lt-cases m n) [
      | inl g ↦ absurd (IsLap-least n m l g k.closed)
      | inr g ↦ omega (arith, h, g)
    ]
  ]

  -- A chain that has ended has no two errors the same.
  pub end-IsLap : (n : ℕ) → path n ≡ none → ((a : ℕ) → a < n → path a ≡ none → ⊥) → IsLap n
  end-IsLap n h s = record {
    errors = s;
    distinct = λ a b p q e. s a (omega (arith, p, q)) (
        sym (path_laps a (b - a) n (back a b p e))
        ∙ path-none n (a + n * (b - a)) h (omega (arith, far n (b - a) (omega (arith, p)))));
    closed = inl h;
  }
    where
      back : (a b : ℕ) → a < b → path a ≡ path b → path (a + (b - a)) ≡ path a
      back a b p e = let f : a + (b - a) ≡ b = omega (arith, p) in ap path f ∙ sym e
