-- ===== src/ErrorChain/Search.antt =====
-- `chain` and `find` of src/ErrorChain.ts end, after one lap of the chain.
use vjuga.Base.{
  ℕ, zero, suc, ◌+◌, ◌*◌, ◌≤◌, ◌<◌, ◌≡◌, refl, Bool, true, false, Option, none, some, List, [], ◌∷◌,
  ◌==◌, if◌then◌else◌, arith, ap, sym, ◌∙◌, subst, inl, inr, Option-cases, Bool-cases, lt-cases,
  ◌>>=◌,
}
use vjuga.ErrorChain.{
  same, distinct_count, length_loop, distinct_length, yield_loop, array_loop, chain, to_array,
  find_loop, find,
}
use vjuga.ErrorChain.Orbit.{path, path-some, same-eq, IsLap, IsLap-unique, end-IsLap}
use vjuga.ErrorChain.Cycle.{distinct_count-IsLap}
use vjuga.ErrorChain.Walk.{
  IsFinite, Seeking, start-Seeking, live_next, reach_bound, found-IsBack, moved-Seeking,
  rest-Seeking, choose, within_lap, to_array-IsLap,
}

module _ (cause : ℕ → Option ℕ) (root : ℕ) where
  length_step :
      (fuel s power q e : ℕ) (mark : Option ℕ)
      → path cause root (suc q) ≡ some e
      → length_loop cause (suc fuel) root mark (path cause root (suc q)) (s + 1) power (suc q) ≡ (
          let current = path cause root (suc q) in
          let after = path cause root (suc (suc q)) in
          if same current mark
          then distinct_count cause fuel root (s + 1)
          else (if s + 1 == power
              then length_loop cause fuel root current after (0 + 1) (power * 2) (suc (suc q))
              else length_loop cause fuel root mark after (s + 1 + 1) power (suc (suc q))))
  unfolding length_loop
  length_step fuel s power q e mark h =
      let one : suc q + 1 ≡ suc (suc q) = omega arith in
      rw (path-some cause root (suc q) e h, h, one) refl

  IsCounted : Option ℕ → Type 0
  IsCounted r = (n : ℕ) × (r ≡ some n) × IsLap cause root n

  module _ (bound : ℕ) (f : IsFinite cause root bound) where
    length_loop-IsCounted :
        (fuel p s q power : ℕ)
        → p + s ≡ q
        → Seeking cause root bound p s power
        → (path cause root (p + s) ≡ none → ⊥)
        → 5 * bound + 6 ≤ fuel + q
        → IsCounted (
            length_loop cause fuel root
              (path cause root p)
              (path cause root (suc q))
              (s + 1)
              power
              (suc q))
    unfolding IsCounted
    length_loop-IsCounted zero p s q power e k l h =
        absurd (omega (arith, h, e, reach_bound cause root bound f p s power k))
    length_loop-IsCounted (suc fuel) p s q power e k l h =
        elim (Option-cases (path cause root (suc q))) [
          | inl ends ↦ (
            suc q,
            unfold length_loop in rw ends refl,
            end-IsLap cause root (suc q) ends
                (λ a g. live_next cause root bound f p s power k l a (omega (arith, g, e))),
          )
          | inr (x, goes) ↦
              let t : suc (p + s) ≡ suc q = ap suc e in
              let test = ap (λ z. same (path cause root z) (path cause root p)) t in
              let lives : path cause root (suc q) ≡ none → ⊥ =
                λ z. absurd (ground (arith, sym goes ∙ z)) in
              subst IsCounted (sym (length_step fuel s power q x (path cause root p) goes)) (
                choose IsCounted _ _ _ _ _
                  (λ g.
                    distinct_count-IsLap cause root p (s + 1)
                      (found-IsBack cause root bound f p s power k l (test ∙ g)) fuel
                      (omega (
                        arith,
                        h,
                        e,
                        k.mark_is,
                        k.small,
                        reach_bound cause root bound f p s power k,
                      )))
                  (λ g z.
                    let k' =
                      moved-Seeking cause root bound f p s power k l (test ∙ g)
                        (grind (arith, z)) in
                    let o : suc q + 0 ≡ suc q = omega arith in
                    length_loop-IsCounted fuel (suc q) 0 (suc q) (power * 2) o
                      (subst (λ w. Seeking cause root bound w 0 (power * 2)) t k')
                      (λ y. lives (ap (path cause root) (sym o) ∙ y)) (omega (arith, h)))
                  (λ g z.
                    let k' =
                      rest-Seeking cause root bound f p s power k l (test ∙ g)
                        (λ y. absurd (grind (arith, y, z))) in
                    let o : p + (s + 1) ≡ suc q = omega (arith, e) in
                    length_loop-IsCounted fuel p (s + 1) (suc q) power o k'
                      (λ y. lives (ap (path cause root) (sym o) ∙ y)) (omega (arith, h))))
        ]

    distinct_length-IsCounted : IsCounted (distinct_length cause (5 * bound + 6) root)
    unfolding distinct_length path
    distinct_length-IsCounted =
        length_loop-IsCounted (5 * bound + 6) 0 0 0 1 (omega arith)
          (start-Seeking cause root bound f) (λ y. absurd (ground (arith, y))) (omega arith)

    lap-some : IsLap cause root 0 → ⊥
    unfolding path
    lap-some lap = elim lap.closed [
      | inl e ↦ absurd (ground (arith, e))
      | inr (a, h, e) ↦ absurd (omega (arith, h))
    ]

    IsCounted-head :
        (r : Option ℕ)
        → IsCounted r
        → (rest : List ℕ) × ((r >>= λ n. some (yield_loop cause n (some root)))
            ≡ some (root ∷ rest))
    unfolding IsCounted yield_loop
    IsCounted-head r (zero, e, lap) = absurd (lap-some lap)
    IsCounted-head r (suc n, e, lap) = (yield_loop cause n (cause root), rw e refl)

    own-array :
        (is_error : ℕ → Bool)
        → is_error root ≡ true
        → to_array cause is_error (5 * bound + 6) root ≡ chain cause (5 * bound + 6) root
    unfolding chain IsCounted
    own-array is_error own =
        let c = distinct_length-IsCounted in
        let a = to_array-IsLap cause root bound f is_error own in
        a.1
        ∙ ap (λ n. some (yield_loop cause n (some root))) (IsLap-unique cause root a.0 c.0 a.2 c.2)
        ∙ sym (ap (λ (o : Option ℕ). o >>= λ n. some (yield_loop cause n (some root))) c.1)

    other-array :
        (is_error : ℕ → Bool)
        → is_error root ≡ false
        → to_array cause is_error (5 * bound + 6) root ≡ some []
    unfolding to_array
    other-array is_error foreign =
        let e : 5 * bound + 6 ≡ suc (5 * bound + 5) = omega arith in
        rw (foreign, e) (unfold array_loop in refl)

    -- For a chain of finitely many errors `toArray` of an `Error` of this realm returns the errors that
    -- the generator yields; of another object it returns none, though the generator yields at least
    -- the object itself.
    pub chain-to_array :
        (is_error : ℕ → Bool)
        → (to_array cause is_error (5 * bound + 6) root
            ≡ (if is_error root then chain cause (5 * bound + 6) root else some []))
          × ((rest : List ℕ) × (chain cause (5 * bound + 6) root ≡ some (root ∷ rest)))
    chain-to_array is_error = (
      elim (Bool-cases (is_error root)) [
        | inl own ↦ own-array is_error own ∙ rw own refl
        | inr foreign ↦ other-array is_error foreign ∙ rw foreign refl
      ],
      unfold chain in IsCounted-head _ distinct_length-IsCounted,
    )

module _ (predicate : ℕ → Bool) (cause : ℕ → Option ℕ) (root : ℕ) where
  find_step :
      (fuel s power q e : ℕ) (mark : Option ℕ)
      → path cause root q ≡ some e
      → predicate e ≡ false
      → find_loop cause predicate (suc fuel) mark (path cause root q) s power ≡ (
          let current = path cause root (suc q) in
          if same current mark
          then some none
          else (if s + 1 == power
              then find_loop cause predicate fuel current current 0 (power * 2)
              else find_loop cause predicate fuel mark current (s + 1) power))
  unfolding find_loop
  find_step fuel s power q e mark h g = rw (path-some cause root q e h, h, g) refl

  -- the predicate fails for the first `n` errors
  Fails : ℕ → Type 0
  Fails n = (a e : ℕ) → a < n → path cause root a ≡ some e → predicate e ≡ false

  Fails-suc : (q x : ℕ) → Fails q → path cause root q ≡ some x → predicate x ≡ false → Fails (suc q)
  unfolding Fails
  Fails-suc q x fails goes failed a e h g = elim (lt-cases a q) [
    | inl l ↦ fails a e l g
    | inr l ↦
        let i : a ≡ q = omega (arith, l, h) in
        let j : some x ≡ some e = sym goes ∙ sym (ap (path cause root) i) ∙ g in
        ground (arith, j, failed)
  ]

  -- What the search returns is the first error for which the predicate holds; it returns none if the
  -- predicate holds for none of the lap.
  pub IsFirst : Option ℕ → Type 0
  IsFirst none = (n : ℕ) × IsLap cause root n × Fails n
  IsFirst (some e) = (a : ℕ) × (path cause root a ≡ some e) × (predicate e ≡ true) × Fails a

  IsFound : Option (Option ℕ) → Type 0
  IsFound r = (x : Option ℕ) × (r ≡ some x) × IsFirst x

  module _ (bound : ℕ) (f : IsFinite cause root bound) where
    find_loop-IsFound :
        (fuel p s q power : ℕ)
        → p + s ≡ q
        → Seeking cause root bound p s power
        → Fails q
        → 5 * bound + 6 ≤ fuel + q
        → IsFound (find_loop cause predicate fuel (path cause root p) (path cause root q) s power)
    unfolding IsFound IsFirst Fails
    find_loop-IsFound zero p s q power e k fails h =
        absurd (omega (arith, h, e, reach_bound cause root bound f p s power k))
    find_loop-IsFound (suc fuel) p s q power e k fails h = elim (Option-cases (path cause root q)) [
      | inl ends ↦ (
        none,
        unfold find_loop in rw ends refl,
        (q, end-IsLap cause root q ends (λ a l. k.live a (omega (arith, l, e))), fails),
      )
      | inr (x, goes) ↦ elim (Bool-cases (predicate x)) [
        | inl holds ↦ (some x, unfold find_loop in rw (goes, holds) refl, (q, goes, holds, fails))
        | inr not_x ↦
            let t : suc (p + s) ≡ suc q = ap suc e in
            let l : path cause root (p + s) ≡ none → ⊥ =
              λ z. absurd (ground (arith, sym goes ∙ sym (ap (path cause root) e) ∙ z)) in
            let test = ap (λ z. same (path cause root z) (path cause root p)) t in
            let fails' : Fails (suc q) = Fails-suc q x fails goes not_x in
            subst IsFound (sym (find_step fuel s power q x (path cause root p) goes not_x)) (
              choose IsFound _ _ _ _ _
                (λ g.
                  let r =
                    distinct_count-IsLap cause root p (s + 1)
                      (found-IsBack cause root bound f p s power k l (test ∙ g)) (suc p)
                      (omega arith) in
                  let short : r.0 ≤ suc q =
                    within_lap cause root p q r.0 (omega (arith, e)) r.2 (same-eq _ _ g) in
                  (none, refl, (r.0, r.2, λ a y z. fails' a y (omega (arith, z, short)))))
                (λ g z.
                  let k' =
                    moved-Seeking cause root bound f p s power k l (test ∙ g) (grind (arith, z)) in
                  find_loop-IsFound fuel (suc q) 0 (suc q) (power * 2) (omega arith)
                    (subst (λ w. Seeking cause root bound w 0 (power * 2)) t k') fails'
                    (omega (arith, h)))
                (λ g z.
                  let k' =
                    rest-Seeking cause root bound f p s power k l (test ∙ g)
                      (λ y. absurd (grind (arith, y, z))) in
                  find_loop-IsFound fuel p (s + 1) (suc q) power (omega (arith, e)) k' fails'
                    (omega (arith, h))))
      ]
    ]

    -- For a chain of finitely many errors a call of `find` on an `Error` of this realm ends with the
    -- first error for which the predicate holds, or with `undefined` if there is none.
    pub find-IsFirst :
        (is_error : ℕ → Bool)
        → is_error root ≡ true
        → (x : Option ℕ) × (find cause is_error predicate (5 * bound + 6) root ≡ some x) × IsFirst x
    unfolding find IsFound path Fails
    find-IsFirst is_error own = rw own (
        find_loop-IsFound (5 * bound + 6) 0 0 0 1 (omega arith) (start-Seeking cause root bound f)
          (λ a e h. absurd (omega (arith, h))) (omega arith))
