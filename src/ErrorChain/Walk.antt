-- ===== src/ErrorChain/Walk.antt =====
-- `toArray` of src/ErrorChain.ts ends, after one lap of the chain.
use vjuga.Base.{
  ℕ, zero, suc, ◌+◌, ◌-◌, ◌*◌, ◌≤◌, ◌<◌, ◌≡◌, refl, Bool, true, false, Option, none, some, List,
  ◌==◌, if◌then◌else◌, arith, ap, sym, ◌∙◌, subst, take, inl, inr, Option-cases, lt-cases, ◌>>=◌,
}
use vjuga.ErrorChain.{same, distinct_count, yield_loop, array_loop, to_array}
use vjuga.ErrorChain.Orbit.{
  same-eq, eq-same, path, path-some, path_same, IsLap, IsLap-least, end-IsLap, yield-snoc,
  take-yield, advance-root,
}
use vjuga.ErrorChain.Cycle.{IsBack, distinct_count-IsLap}

-- by cases on two tests
pub choose :
    {A : Type 0} (P : A → Type 0) (a b : Bool) (x y z : A)
    → (a ≡ true → P x)
    → (a ≡ false → b ≡ true → P y)
    → (a ≡ false → b ≡ false → P z)
    → P (if a then x else (if b then y else z))
choose P true b x y z f g h = f refl
choose P false true x y z f g h = g refl refl
choose P false false x y z f g h = h refl refl

module _ (cause : ℕ → Option ℕ) (root : ℕ) where
  -- The chain is of finitely many errors: from the place `i` on, the place `d` further has the same
  -- error, or the chain has ended. Both numbers are at most `bound`.
  pub record IsFinite (bound : ℕ) : Type 0 where
    pub i : ℕ
    pub d : ℕ
    pub steps : 1 ≤ d
    pub again : path cause root (i + d) ≡ path cause root i
    pub within_i : i ≤ bound
    pub within_d : d ≤ bound

  -- The search for a cycle: the mark is at `p`, the place `s` further has been reached, and the errors
  -- after the mark are not its error.
  pub record Seeking (bound p s power : ℕ) : Type 0 where
    pub mark_is : p + 1 ≡ power
    pub small : power ≤ 2 * bound + 2
    pub before : s < power
    pub fresh : (t : ℕ) → 1 ≤ t → t ≤ s → path cause root (p + t) ≡ path cause root p → ⊥
    pub live : (a : ℕ) → a < p + s → path cause root a ≡ none → ⊥

  module _ (bound : ℕ) (f : IsFinite bound) where
    pub start-Seeking : Seeking bound 0 0 1
    start-Seeking = record {
      mark_is = omega arith;
      small = omega arith;
      before = omega arith;
      fresh = λ t h k. absurd (omega (arith, h, k));
      live = λ a h. absurd (omega (arith, h));
    }

    -- past the bound, a mark has its error again within `bound` steps
    soon :
        (p s : ℕ)
        → bound ≤ p
        → ((t : ℕ) → 1 ≤ t → t ≤ s → path cause root (p + t) ≡ path cause root p → ⊥)
        → s < bound
    soon p s h k = elim (lt-cases s f.d) [
      | inl g ↦ omega (arith, g, f.within_d)
      | inr g ↦
          let u : p + f.d ≡ f.i + f.d + (p - f.i) = omega (arith, h, f.within_i) in
          let w : f.i + (p - f.i) ≡ p = omega (arith, h, f.within_i) in
          absurd (
            k f.d f.steps g (
              ap (path cause root) u
              ∙ path_same cause root (f.i + f.d) f.i (p - f.i) f.again
              ∙ ap (path cause root) w))
    ]

    pub reach_bound : (p s power : ℕ) → Seeking bound p s power → p + s < 3 * bound + 3
    reach_bound p s power k = elim (lt-cases p bound) [
      | inl h ↦ omega (arith, h, k.mark_is, k.before)
      | inr h ↦ omega (arith, k.mark_is, k.small, soon p s h k.fresh)
    ]

    module _ (p s power : ℕ) (k : Seeking bound p s power)
        (l : path cause root (p + s) ≡ none → ⊥) where
      pub live_next : (a : ℕ) → a < suc (p + s) → path cause root a ≡ none → ⊥
      live_next a h e = elim (lt-cases a (p + s)) [
        | inl g ↦ k.live a g e
        | inr g ↦
            let u : a ≡ p + s = omega (arith, g, h) in l (subst (λ z. path cause root z ≡ none) u e)
      ]

      pub found-IsBack :
          same (path cause root (suc (p + s))) (path cause root p) ≡ true
          → IsBack cause root p (s + 1)
      found-IsBack e = record {
        some_steps = omega arith;
        live = live_next p (omega arith);
        back =
            let u : p + (s + 1) ≡ suc (p + s) = omega arith in
            ap (path cause root) u ∙ same-eq _ _ e;
        soonest = λ t h g. k.fresh t h (omega (arith, g));
      }

      fresh_next :
          same (path cause root (suc (p + s))) (path cause root p) ≡ false
          → (t : ℕ) → 1 ≤ t
          → t ≤ s + 1
          → path cause root (p + t) ≡ path cause root p
          → ⊥
      fresh_next e t h g q = elim (lt-cases s t) [
        | inl x ↦
            let u : suc (p + s) ≡ p + t = omega (arith, x, g) in
            elim (Option-cases (path cause root p)) [
              | inl none_p ↦ absurd (live_next p (omega arith) none_p)
              | inr (m, some_p) ↦ absurd (
                  ground (
                    arith,
                    e,
                    eq-same (path cause root (suc (p + s))) (path cause root p) m
                        (ap (path cause root) u ∙ q ∙ some_p) (ap (path cause root) u ∙ q),
                  ))
            ]
        | inr x ↦ k.fresh t h x q
      ]

      pub moved-Seeking :
          same (path cause root (suc (p + s))) (path cause root p) ≡ false
          → s + 1 ≡ power
          → Seeking bound (suc (p + s)) 0 (power * 2)
      moved-Seeking e g = record {
        mark_is = omega (arith, k.mark_is, g);
        small = elim (lt-cases (bound + 1) power) [
          | inl x ↦ absurd (
              omega (
                arith,
                g,
                k.mark_is,
                x,
                soon p (s + 1) (omega (arith, k.mark_is, x)) (fresh_next e),
              ))
          | inr x ↦ omega (arith, x)
        ];
        before = omega (arith, k.before);
        fresh = λ t h z. absurd (omega (arith, h, z));
        live = λ a h. live_next a (omega (arith, h));
      }

      pub rest-Seeking :
          same (path cause root (suc (p + s))) (path cause root p) ≡ false
          → (s + 1 ≡ power → ⊥)
          → Seeking bound p (s + 1) power
      rest-Seeking e g = record {
        mark_is = k.mark_is;
        small = k.small;
        before = grind (arith, g, k.before);
        fresh = fresh_next e;
        live = λ a h. live_next a (omega (arith, h));
      }

  -- one round of `toArray`, from the place `q` on
  array_step :
      (fuel s power q e : ℕ) (mark : Option ℕ)
      → path cause root q ≡ some e
      → array_loop cause
          (suc fuel)
          root
          mark
          (path cause root q)
          s
          power
          (yield_loop cause q (some root))
        ≡ (let result = yield_loop cause (suc q) (some root) in
            let current = path cause root (suc q) in
            if same current mark
            then distinct_count cause fuel root (s + 1) >>= (λ n. some (take n result))
            else (if s + 1 == power
                then array_loop cause fuel root current current 0 (power * 2) result
                else array_loop cause fuel root mark current (s + 1) power result))
  unfolding array_loop
  array_step fuel s power q e mark h =
      rw
        (
          h,
          path-some cause root q e h,
          sym (yield-snoc cause q (some root) e (advance-root cause root q e h)),
        )
        refl

  -- the errors of one lap
  IsCollected : Option (List ℕ) → Type 0
  IsCollected r = (n : ℕ) × (r ≡ some (yield_loop cause n (some root))) × IsLap cause root n

  -- a place that has an error again is past the lap
  pub within_lap :
      (p q n : ℕ)
      → p ≤ q
      → IsLap cause root n
      → path cause root (suc q) ≡ path cause root p
      → n ≤ suc q
  within_lap p q n h lap e = elim (lt-cases (suc q) n) [
    | inl g ↦ absurd (IsLap-least cause root n (suc q) lap g (inr (p, omega (arith, h), e)))
    | inr g ↦ g
  ]

  module _ (bound : ℕ) (f : IsFinite bound) where
    array_loop-IsCollected :
        (fuel p s q power : ℕ)
        → p + s ≡ q
        → Seeking bound p s power
        → 5 * bound + 6 ≤ fuel + q
        → IsCollected (
            array_loop cause fuel root
              (path cause root p)
              (path cause root q)
              s
              power
              (yield_loop cause q (some root)))
    unfolding IsCollected
    array_loop-IsCollected zero p s q power e k h =
        absurd (omega (arith, h, e, reach_bound bound f p s power k))
    array_loop-IsCollected (suc fuel) p s q power e k h = elim (Option-cases (path cause root q)) [
      | inl ends ↦ (
        q,
        unfold array_loop in rw ends refl,
        end-IsLap cause root q ends (λ a l. k.live a (omega (arith, l, e))),
      )
      | inr (x, goes) ↦
          let t : suc (p + s) ≡ suc q = ap suc e in
          let l : path cause root (p + s) ≡ none → ⊥ =
            λ z. absurd (ground (arith, sym goes ∙ sym (ap (path cause root) e) ∙ z)) in
          let test = ap (λ z. same (path cause root z) (path cause root p)) t in
          subst IsCollected (sym (array_step fuel s power q x (path cause root p) goes)) (
            choose IsCollected _ _ _ _ _
              (λ g.
                let c = found-IsBack bound f p s power k l (test ∙ g) in
                let room : p < fuel =
                  omega (arith, h, e, k.mark_is, k.small, reach_bound bound f p s power k) in
                let r = distinct_count-IsLap cause root p (s + 1) c fuel room in
                let short : r.0 ≤ suc q =
                  within_lap p q r.0 (omega (arith, e)) r.2 (same-eq _ _ g) in
                (
                  r.0,
                  ap (λ o. o >>= λ n. some (take n (yield_loop cause (suc q) (some root)))) r.1
                      ∙ ap some (take-yield cause r.0 (suc q) (some root) short),
                  r.2,
                ))
              (λ g z.
                let k' = moved-Seeking bound f p s power k l (test ∙ g) (grind (arith, z)) in
                array_loop-IsCollected fuel (suc q) 0 (suc q) (power * 2) (omega arith)
                  (subst (λ w. Seeking bound w 0 (power * 2)) t k') (omega (arith, h)))
              (λ g z.
                let k' =
                  rest-Seeking bound f p s power k l (test ∙ g)
                    (λ y. absurd (grind (arith, y, z))) in
                array_loop-IsCollected fuel p (s + 1) (suc q) power (omega (arith, e)) k'
                  (omega (arith, h))))
    ]

    -- For a chain of finitely many errors, whether it ends or comes back, a call of `toArray` on an
    -- `Error` of this realm ends, and it returns the errors of one lap, in order and each once.
    pub to_array-IsLap :
        (is_error : ℕ → Bool)
        → is_error root ≡ true
        → (n : ℕ) × (to_array cause is_error (5 * bound + 6) root
            ≡ some (yield_loop cause n (some root)))
          × IsLap cause root n
    unfolding to_array IsCollected path yield_loop
    to_array-IsLap is_error own = rw own (
        array_loop-IsCollected (5 * bound + 6) 0 0 0 1 (omega arith) (start-Seeking bound f)
          (omega arith))
