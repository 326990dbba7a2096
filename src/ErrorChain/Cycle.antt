-- ===== src/ErrorChain/Cycle.antt =====
-- `distinctCount` of src/ErrorChain.ts: the errors of a chain that comes back.
use vjuga.Base.{
  ℕ, zero, suc, ◌+◌, ◌-◌, ◌*◌, ◌≤◌, ◌<◌, ◌≡◌, refl, Option, none, some, arith, ap, ap₂, sym, ◌∙◌,
  subst, inl, inr, Option-cases, Bool-cases, eq-cases, lt-cases, ◌>>=◌,
}
use vjuga.ErrorChain.{same, meet_loop, distinct_count}
use vjuga.ErrorChain.Orbit.{
  same-eq, eq-same, path, path-advance, path_same, path-none, path_laps, IsLap, far,
}

module _ (cause : ℕ → Option ℕ) (root : ℕ) where
  -- the chain comes back to the error at `p` after `lap` steps, and not before
  pub record IsBack (p lap : ℕ) : Type 0 where
    pub some_steps : 1 ≤ lap
    pub live : path cause root p ≡ none → ⊥
    pub back : path cause root (p + lap) ≡ path cause root p
    pub soonest : (t : ℕ) → 1 ≤ t → t < lap → path cause root (p + t) ≡ path cause root p → ⊥

  module _ (p lap : ℕ) (c : IsBack p lap) where
    always : (a : ℕ) → path cause root a ≡ none → ⊥
    always a h = c.live (
        sym (path_laps cause root p lap a c.back)
        ∙ path-none cause root a (p + a * lap) h (omega (arith, far a lap c.some_steps)))

    always_some : (a : ℕ) → (e : ℕ) × (path cause root a ≡ some e)
    always_some a = elim (Option-cases (path cause root a)) [
      | inl h ↦ absurd (always a h)
      | inr (e, h) ↦ (e, h)
    ]

    later : (i : ℕ) → p ≤ i → path cause root (i + lap) ≡ path cause root i
    later i h =
        let e : i + lap ≡ p + lap + (i - p) = omega (arith, h) in
        let f : p + (i - p) ≡ i = omega (arith, h) in
        ap (path cause root) e
        ∙ path_same cause root (p + lap) p (i - p) c.back
        ∙ ap (path cause root) f

    -- an error that comes back at all comes back after `lap` steps
    comes_back :
        (i d : ℕ)
        → 1 ≤ d
        → path cause root (i + d) ≡ path cause root i
        → path cause root (i + lap) ≡ path cause root i
    comes_back i d o h =
        let j = path_laps cause root i d p h in
        sym (path_same cause root (i + p * d) i lap j)
        ∙ later (i + p * d) (omega (arith, far p d o))
        ∙ j

    IsMeeting : ℕ → Type 0
    IsMeeting mu =
        (path cause root (mu + lap) ≡ path cause root mu)
        × ((m : ℕ) → m < mu → path cause root (m + lap) ≡ path cause root m → ⊥)

    meeting-IsLap : (mu : ℕ) → IsMeeting mu → IsLap cause root (mu + lap)
    unfolding IsMeeting
    meeting-IsLap mu g = record {
      errors = λ a h. always a;
      distinct = λ a b h k e. apart a b h k e;
      closed = inr (mu, omega (arith, c.some_steps), g.0);
    }
      where
        apart : (a b : ℕ) → a < b → b < mu + lap → path cause root a ≡ path cause root b → ⊥
        apart a b h k e =
            let s : a + (b - a) ≡ b = omega (arith, h) in
            let r : path cause root (a + (b - a)) ≡ path cause root a =
              ap (path cause root) s ∙ sym e in
            let d1 : 1 ≤ b - a = omega (arith, h) in
            elim (lt-cases a mu) [
              | inl x ↦ g.1 a x (comes_back a (b - a) d1 r)
              | inr x ↦
                  let q = p + a * lap in
                  let u : q + (b - a) ≡ a + (b - a) + (q - a) =
                    omega (arith, far a lap c.some_steps) in
                  let w : a + (q - a) ≡ q = omega (arith, far a lap c.some_steps) in
                  let l = path_laps cause root p lap a c.back in
                  c.soonest (b - a) d1 (omega (arith, k, x)) (
                    sym (path_same cause root q p (b - a) l)
                    ∙ ap (path cause root) u
                    ∙ path_same cause root (a + (b - a)) a (q - a) r
                    ∙ ap (path cause root) w
                    ∙ l)
            ]

    meet_loop-IsMeeting :
        (fuel m : ℕ)
        → p < fuel + m
        → m ≤ p
        → ((k : ℕ) → k < m → path cause root (k + lap) ≡ path cause root k → ⊥)
        → (mu : ℕ) × (meet_loop cause fuel (path cause root m) (path cause root (m + lap)) m
            ≡ some mu)
          × IsMeeting mu
    unfolding meet_loop IsMeeting path
    meet_loop-IsMeeting zero m f h k = absurd (omega (arith, f, h))
    meet_loop-IsMeeting (suc fuel) m f h k =
        elim (Bool-cases (same (path cause root m) (path cause root (m + lap)))) [
          | inl e ↦ (m, rw e refl, (sym (same-eq _ _ e), k))
          | inr e ↦
              let apart : path cause root (m + lap) ≡ path cause root m → ⊥ = λ g.
                absurd
                  (ground (arith, e, eq-same _ _ (always_some m).0 (always_some m).1 (sym g))) in
              let before : m < p = elim (eq-cases m p) [
                | inl q ↦ absurd (
                    apart
                      (subst (λ z. path cause root (z + lap) ≡ path cause root z) (sym q) c.back))
                | inr q ↦ grind (arith, q)
              ] in
              let r =
                meet_loop-IsMeeting fuel (suc m) (omega (arith, f)) (omega (arith, before)) (λ j l.
                  elim (eq-cases j m) [
                    | inl q ↦
                        λ z. apart (subst (λ w. path cause root (w + lap) ≡ path cause root w) q z)
                    | inr q ↦ k j (grind (arith, q, l))
                  ]) in
              let one : m + 1 ≡ suc m = omega arith in
              let two : suc (m + lap) ≡ suc m + lap = omega arith in
              (
                r.0,
                rw e (
                    ap₂ (λ a b. meet_loop cause fuel (path cause root (suc m)) a b)
                      (ap (path cause root) two) one
                    ∙ r.1),
                r.2,
              )
        ]

    -- `distinctCount` counts the errors of one lap.
    pub distinct_count-IsLap :
        (fuel : ℕ)
        → p < fuel
        → (n : ℕ) × (distinct_count cause fuel root lap ≡ some n) × IsLap cause root n
    unfolding distinct_count path
    distinct_count-IsLap fuel f =
        let r =
          meet_loop-IsMeeting fuel 0 (omega (arith, f)) (omega arith)
            (λ k h. absurd (omega (arith, h))) in
        (
          r.0 + lap,
          ap (λ (x : Option ℕ). x >>= λ mu. some (mu + lap))
              (ap (λ x. meet_loop cause fuel (some root) x 0) (path-advance cause root lap 0)
                ∙ r.1),
          meeting-IsLap r.0 r.2,
        )
