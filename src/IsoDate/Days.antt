-- ===== src/IsoDate/Days.antt =====
-- The day numbers of src/ISODate.ts and the calendar: from a date to its number, and back.
use vjuga.Base.{
  ℕ, suc, ◌+◌, ◌-◌, ◌*◌, ◌/◌, ◌%◌, ◌≤◌, ◌<◌, ◌≡◌, refl, ltb, arith, if◌then◌else◌, ap, ap₂, subst,
  sym, ◌∙◌,
}
use vjuga.Base.Int.{ℤ, pos, pos_part, neg_part, ◌≤ℤ◌, eq_of_parts}
use vjuga.IsoDate.{days_from_civil, civil_from_days, year_of_era, min_day, max_day}
use vjuga.IsoDate.Civil.{year_start, year_of_era-eq, year_of_era-bounds, month-day}
use vjuga.IsoDate.Years.{
  Moved, early, march_year, march_day, index, of_year, of_day, of_month, calendar_month,
  days_from_civil-index, civil_from_days-index,
}
use vjuga.IsoDate.Months.{
  IsDate, month_days, days_in_month-eq, march_day-fits, march_day-month, year_start-last,
  year_start-closed, day-in-month, year-first, year-last,
}

module _ (y m d : ℕ) (lo : 1 ≤ m) (hi : m ≤ 12) (one : 1 ≤ d) (fits : d ≤ month_days y m) where
  abbrev n : ℕ
  n = index y m d

  abbrev yoe : ℕ
  yoe = march_year y m % 400

  index-rest : n % 146097 ≡ year_start yoe + march_day m d
  index-rest = omega (arith, march_day-fits y m d lo hi one fits, year_start-last yoe (omega arith))

  index-era : n / 146097 ≡ march_year y m / 400
  index-era = omega (arith, march_day-fits y m d lo hi one fits, year_start-last yoe (omega arith))

  index-of_year : of_year n ≡ yoe
  index-of_year =
      ap year_of_era index-rest
      ∙ year_of_era-eq yoe (march_day m d) (omega arith) (march_day-fits y m d lo hi one fits)

  index-of_day : of_day n ≡ march_day m d
  index-of_day = rw (index-of_year, index-rest) (omega (arith, year_start-closed yoe (omega arith)))

  index-of_month : of_month n ≡ (if ltb 2 m then m - 3 else m + 9)
  index-of_month =
      ap (λ k. (5 * k + 2) / 153) index-of_day ∙ (march_day-month y m d lo hi one fits).0

  index-month : calendar_month (of_month n) ≡ m
  index-month = rw index-of_month (ground arith)

  index-day : of_day n - (153 * of_month n + 2) / 5 + 1 ≡ d
  index-day = rw (index-of_month, index-of_day) (omega arith)

  -- the day number of a date leads back to it
  civil_from_days-back : civil_from_days (days_from_civil y m d) ≡ (pos y, m, d)
  civil_from_days-back =
      civil_from_days-index (days_from_civil y m d) n y (days_from_civil-index y m d one)
        (rw (index-month, index-of_year, index-era) (ground arith))
      ∙ ap₂ (λ (a b : ℕ). (pos y, a, b)) index-month index-day

pub civil_from_days-days_from_civil :
    (y m d : ℕ) → IsDate y m d → civil_from_days (days_from_civil y m d) ≡ (pos y, m, d)
civil_from_days-days_from_civil y m d v =
    civil_from_days-back y m d lo hi v.day_in.0
      (subst (λ k. d ≤ k) (days_in_month-eq y m lo hi) v.day_in.1)
  where
    lo : 1 ≤ m
    lo = v.month_in.0

    hi : m ≤ 12
    hi = v.month_in.1

-- what a day number says of its date
pub record Civil (days : ℤ) : Type 0 where
  pub year : ℕ
  pub month : ℕ
  pub day : ℕ
  pub found : civil_from_days days ≡ (pos year, month, day)
  pub valid : IsDate year month day
  pub number : days_from_civil year month day ≡ days

module _ (n : ℕ) where
  abbrev yoe' : ℕ
  yoe' = of_year n

  bound : yoe' < 400
  bound = (year_of_era-bounds (n % 146097) (omega arith)).0

  day-fits : year_start yoe' + of_day n < year_start (suc yoe')
  day-fits = omega (
    arith,
    year_of_era-bounds (n % 146097) (omega arith),
    year_start-closed yoe' (year_of_era-bounds (n % 146097) (omega arith)).0,
  )

  day-sum : year_start yoe' + of_day n ≡ n % 146097
  day-sum = omega (
    arith,
    year_of_era-bounds (n % 146097) (omega arith),
    year_start-closed yoe' (year_of_era-bounds (n % 146097) (omega arith)).0,
  )

  month-of_month : (of_month n ≤ 11) × (of_day n < 366)
  month-of_month = unfold year_start in omega (arith, day-fits)

  abbrev month' : ℕ
  month' = calendar_month (of_month n)

  abbrev day' : ℕ
  day' = of_day n - (153 * of_month n + 2) / 5 + 1

  march_day' : march_day month' day' ≡ of_day n
  march_day' =
      let parts = month-day (of_day n) month-of_month.1 (of_month n) day' refl refl in
      ground (arith, parts, month-of_month)

  module _ (y : ℕ) (e : yoe' + n / 146097 * 400 + early month' ≡ y + 400) where
    day-in : day' ≤ month_days y month'
    day-in = day-in-month yoe' (of_day n) (n / 146097) y (of_month n) bound day-fits refl e

    year' : march_year y month' ≡ yoe' + n / 146097 * 400
    year' = omega (arith, e)

    era_year : (yoe' + n / 146097 * 400) / 400 ≡ n / 146097
    era_year = omega (arith, bound)

    era_rest : (yoe' + n / 146097 * 400) % 400 ≡ yoe'
    era_rest = omega (arith, bound)

    index' : index y month' day' ≡ n
    index' = rw (year', march_day', era_year, era_rest) (omega (arith, day-sum))

  first_day : 146037 ≤ n → 400 ≤ yoe' + n / 146097 * 400 + early month'
  first_day h =
      year-first yoe' (of_day n) (n / 146097) (of_month n) bound day-fits refl
        (omega (arith, day-sum))

  last_day : n ≤ 3798461 → yoe' + n / 146097 * 400 + early month' ≤ 10399
  last_day h =
      year-last yoe' (of_day n) (n / 146097) (of_month n) bound day-fits refl
        (omega (arith, day-sum))

pub days_in_range : (days : ℤ) → min_day ≤ℤ days → days ≤ℤ max_day → Civil days
days_in_range days lo hi = record {
  year = y;
  month = month' n;
  day = day' n;
  found = civil_from_days-index days n y moved e;
  valid = record {
    year_in = omega (arith, e, last_day n (omega (arith, moved)));
    month_in = months;
    day_in = (
      omega arith,
      subst (λ k. day' n ≤ k) (sym (days_in_month-eq y (month' n) months.0 months.1))
          (day-in n y e),
    );
  };
  number = eq_of_parts _ _ (
      omega
        (arith, moved, index' n y e, days_from_civil-index y (month' n) (day' n) (omega arith)));
}
  where
    n : ℕ
    n = pos_part days + 865565 - neg_part days

    moved : Moved 865565 days n
    moved = omega arith

    y : ℕ
    y = yoe' n + n / 146097 * 400 + early (month' n) - 400

    e : yoe' n + n / 146097 * 400 + early (month' n) ≡ y + 400
    e = omega (arith, moved, first_day n (omega (arith, moved)))

    months : (1 ≤ month' n) × (month' n ≤ 12)
    months = ground (arith, month-of_month n)
