-- ===== src/IsoDate/Months.antt =====
-- Months and years of src/ISODate.ts: the valid dates, and the days of the years that begin in March.
use vjuga.Base.{
  ℕ, zero, suc, ◌+◌, ◌-◌, ◌*◌, ◌/◌, ◌%◌, ◌≤◌, ◌<◌, ◌≡◌, refl, Bool, not, ◌&&◌, ◌||◌, ltb, ◌==◌,
  arith, if◌then◌else◌,
}
use vjuga.Base.Int.{pos}
use vjuga.IsoDate.{days_in_month}
use vjuga.IsoDate.Civil.{year_start}
use vjuga.IsoDate.Years.{early, march_year, march_day, calendar_month}

-- a day of the calendar, from 0000-01-01 to 9999-12-31
pub record IsDate (y m d : ℕ) : Type 0 where
  pub year_in : y ≤ 9999
  pub month_in : (1 ≤ m) × (m ≤ 12)
  pub day_in : (1 ≤ d) × (d ≤ days_in_month (pos y) (pos m))

-- the lengths of the months as numbers
abbrev pub is_leap : ℕ → Bool
is_leap y = (y % 4 == 0) && (not (y % 100 == 0) || (y % 400 == 0))

abbrev pub month_days : ℕ → ℕ → ℕ
month_days y m =
    if m == 2
    then (if is_leap y then 29 else 28)
    else if (m == 4) || (m == 6) || (m == 9) || (m == 11)
    then 30
    else 31

-- the clauses of `days_in_month`, past February
pub days_in_month-eq : (y m : ℕ) → 1 ≤ m → m ≤ 12 → days_in_month (pos y) (pos m) ≡ month_days y m
unfolding days_in_month
days_in_month-eq y zero lo hi = absurd (omega arith)
days_in_month-eq y (suc zero) lo hi = refl
days_in_month-eq y (suc (suc zero)) lo hi = ground arith
days_in_month-eq y (suc (suc (suc zero))) lo hi = refl
days_in_month-eq y (suc (suc (suc (suc zero)))) lo hi = refl
days_in_month-eq y (suc (suc (suc (suc (suc zero))))) lo hi = refl
days_in_month-eq y (suc (suc (suc (suc (suc (suc zero)))))) lo hi = refl
days_in_month-eq y (suc (suc (suc (suc (suc (suc (suc zero))))))) lo hi = refl
days_in_month-eq y (suc (suc (suc (suc (suc (suc (suc (suc zero)))))))) lo hi = refl
days_in_month-eq y (suc (suc (suc (suc (suc (suc (suc (suc (suc zero))))))))) lo hi = refl
days_in_month-eq y (suc (suc (suc (suc (suc (suc (suc (suc (suc (suc zero)))))))))) lo hi = refl
days_in_month-eq y (suc (suc (suc (suc (suc (suc (suc (suc (suc (suc (suc zero))))))))))) lo hi =
    refl
days_in_month-eq y (suc (suc (suc (suc (suc (suc (suc (suc (suc (suc (suc (suc zero)))))))))))) lo
      hi =
    refl
days_in_month-eq y (suc (suc (suc (suc (suc (suc (suc (suc (suc (suc (suc (suc (suc i)))))))))))))
      lo hi =
    absurd (omega arith)

-- a date lies in its year from March
pub march_day-fits :
    (y m d : ℕ)
    → 1 ≤ m
    → m ≤ 12
    → 1 ≤ d
    → d ≤ month_days y m
    → year_start (march_year y m % 400) + march_day m d < year_start (suc (march_year y m % 400))
unfolding year_start
march_day-fits y m d lo hi one fits = ground arith

-- the day of a year from March is that of its month and day of the month
pub march_day-month :
    (y m d : ℕ)
    → 1 ≤ m
    → m ≤ 12
    → 1 ≤ d
    → d ≤ month_days y m
    → ((5 * march_day m d + 2) / 153 ≡ (if ltb 2 m then m - 3 else m + 9)) × (march_day m d < 366)
march_day-month y m d lo hi one fits = ground arith

pub year_start-last : (n : ℕ) → n < 400 → year_start (suc n) ≤ 146097
unfolding year_start
year_start-last n h = omega arith

pub year_start-closed : (n : ℕ) → n < 400 → 365 * n + n / 4 - n / 100 ≡ year_start n
unfolding year_start
year_start-closed n h = omega arith

-- the day of the month that a day of the year falls on is one of that month
pub day-in-month :
    (yoe doy q y mp : ℕ)
    → yoe < 400
    → year_start yoe + doy < year_start (suc yoe)
    → mp ≡ (5 * doy + 2) / 153
    → yoe + q * 400 + early (calendar_month mp) ≡ y + 400
    → doy - (153 * mp + 2) / 5 + 1 ≤ month_days y (calendar_month mp)
unfolding year_start
day-in-month yoe doy q y mp lt hi e f = ground arith

-- the years of the first and of the last day
pub year-first :
    (yoe doy q mp : ℕ)
    → yoe < 400
    → year_start yoe + doy < year_start (suc yoe)
    → mp ≡ (5 * doy + 2) / 153
    → 146037 ≤ year_start yoe + doy + q * 146097
    → 400 ≤ yoe + q * 400 + early (calendar_month mp)
unfolding year_start
year-first yoe doy q mp lt hi e f = ground arith

pub year-last :
    (yoe doy q mp : ℕ)
    → yoe < 400
    → year_start yoe + doy < year_start (suc yoe)
    → mp ≡ (5 * doy + 2) / 153
    → year_start yoe + doy + q * 146097 ≤ 3798461
    → yoe + q * 400 + early (calendar_month mp) ≤ 10399
unfolding year_start
year-last yoe doy q mp lt hi e f = ground arith
