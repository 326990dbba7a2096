-- ===== src/IsoDate/Tomorrow.antt =====
-- The day numbers of src/ISODate.ts against the calendar: the epoch, and the day after a day.
use vjuga.Base.{
  ℕ, ◌+◌, ◌≤◌, ◌<◌, ◌≡◌, refl, Bool, false, ltb, arith, if◌then◌else◌, ap, sym, ◌∙◌, subst, ◌==◌,
  Bool-cases, inl, inr,
}
use vjuga.Base.Int.{ℤ, pos, floor_div, ◌*ℤ◌, ◌-ℤ◌, ◌+ℤ◌, eq_of_parts, +ℤ_parts}
use vjuga.IsoDate.{days_in_month, days_from_civil}
use vjuga.IsoDate.Civil.{year_start}
use vjuga.IsoDate.Years.{index, march_year, march_day, days_from_civil-index}
use vjuga.IsoDate.Months.{IsDate, days_in_month-eq, month_days}

-- the calendar's next day
unfoldable pub tomorrow : ℕ → ℕ → ℕ → ℕ × ℕ × ℕ
tomorrow y m d =
    if ltb d (days_in_month (pos y) (pos m))
    then (y, m, d + 1)
    else if ltb m 12
    then (y, m + 1, 1)
    else (y + 1, 1, 1)

abbrev pub number : ℕ × ℕ × ℕ → ℤ
number (y, m, d) = days_from_civil y m d

module _ (y m d : ℕ) (lo : 1 ≤ m) (hi : m ≤ 12) (one : 1 ≤ d) where
  index-day : index y m (d + 1) ≡ index y m d + 1
  index-day = ground arith

  abbrev is_two : ℕ → Bool
  is_two k = k == 2

  month-turn :
      m < 12
      → is_two m ≡ false
      → d ≡ month_days y m
      → (march_year y (m + 1) ≡ march_year y m) × (march_day (m + 1) 1 ≡ march_day m d + 1)
  month-turn lt n e = ground arith

  index-march : m ≡ 2 → d ≡ month_days y 2 → index y 3 1 ≡ index y m d + 1
  unfolding year_start
  index-march e f = subst (λ k. index y 3 1 ≡ index y k d + 1) (sym e) (ground arith)

  index-month : m < 12 → d ≡ month_days y m → index y (m + 1) 1 ≡ index y m d + 1
  index-month lt e = elim (Bool-cases (is_two m)) as (λ _. index y (m + 1) 1 ≡ index y m d + 1) [
    | inl t ↦
        let two : m ≡ 2 = ground arith in
        ap (λ k. index y (k + 1) 1) two ∙ index-march two (subst (λ k. d ≡ month_days y k) two e)
    | inr n ↦ let turn = month-turn lt n e in rw (turn.0, turn.1) (omega arith)
  ]

  index-year : m ≡ 12 → d ≡ 31 → index (y + 1) 1 1 ≡ index y m d + 1
  unfolding year_start
  index-year e f = ground arith

one_more :
    (y m d y' m' d' : ℕ)
    → 1 ≤ d
    → 1 ≤ d'
    → index y' m' d' ≡ index y m d + 1
    → days_from_civil y' m' d' ≡ days_from_civil y m d +ℤ pos 1
one_more y m d y' m' d' h h' e = eq_of_parts _ _ (
    omega (
      arith,
      days_from_civil-index y m d h,
      days_from_civil-index y' m' d' h',
      +ℤ_parts (days_from_civil y m d) (pos 1),
    ))

epoch : days_from_civil 1970 1 1 ≡ pos 0
unfolding days_from_civil ◌-ℤ◌ ◌+ℤ◌ ◌*ℤ◌ floor_div
epoch = refl

step : (y m d : ℕ) → IsDate y m d → number (tomorrow y m d) ≡ number (y, m, d) +ℤ pos 1
unfolding tomorrow
step y m d v =
    elim (Bool-cases (ltb d (days_in_month (pos y) (pos m))))
      as (λ _. number (tomorrow y m d) ≡ number (y, m, d) +ℤ pos 1) [
        | inl b ↦ rw b (one_more y m d y m (d + 1) one (omega arith) (index-day y m d lo hi one))
        | inr b ↦
            rw b
              (elim (Bool-cases (ltb m 12))
                as (λ _.
                  number (if ltb m 12 then (y, m + 1, 1) else (y + 1, 1, 1))
                  ≡ number (y, m, d) +ℤ pos 1) [
                    | inl c ↦ rw c (
                        one_more y m d y (m + 1) 1 one (omega arith)
                          (index-month y m d lo hi one (ground arith) (last b)))
                    | inr c ↦ rw c (
                        one_more y m d (y + 1) 1 1 one (omega arith)
                          (index-year y m d lo hi one (ground arith) (ground (arith, last b))))
                  ])
      ]
  where
    lo : 1 ≤ m
    lo = v.month_in.0

    hi : m ≤ 12
    hi = v.month_in.1

    one : 1 ≤ d
    one = v.day_in.0

    last : ltb d (days_in_month (pos y) (pos m)) ≡ false → d ≡ month_days y m
    last b = ground (arith, v.day_in, days_in_month-eq y m lo hi)

-- The day number of 1970-01-01 is 0, and that of the calendar's next day is one more, over the ends
-- of months and years and in leap years.
pub days_from_civil-tomorrow :
    (days_from_civil 1970 1 1 ≡ pos 0)
    × ((y m d : ℕ) → IsDate y m d → number (tomorrow y m d) ≡ number (y, m, d) +ℤ pos 1)
days_from_civil-tomorrow = (epoch, step)
