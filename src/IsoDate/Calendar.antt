-- ===== src/IsoDate/Calendar.antt =====
-- The exported functions of src/ISODate.ts: which texts they accept, and what they do with dates.
use vjuga.Base.{ℕ, ◌≤◌, ◌<◌, ◌≡◌, true, arith, sym, ◌∙◌, subst, ◌↔◌, List}
use vjuga.Base.Int.{ℤ, pos, ◌≤ℤ◌}
use vjuga.IsoDate.{is_iso_date, days_from_civil, to_days, from_days, min_day, max_day, print_date}
use vjuga.IsoDate.Months.{IsDate, month_days, days_in_month-eq}
use vjuga.IsoDate.Days.{Civil, days_in_range, civil_from_days-days_from_civil}
use vjuga.IsoDate.Text.{
  date_text, IsDateText, is_iso_date-date_text, is_iso_date-IsDateText, to_days-date_text,
  print_date-date_text, days_in_month-range,
}

day-small : (y m d : ℕ) → IsDate y m d → (m < 100) × (d < 32)
day-small y m d v =
    omega
      (arith, v.month_in, v.day_in, days_in_month-range (pos y) (pos m) (omega (arith, v.day_in)))

accepts : (y m d : ℕ) → IsDate y m d → is_iso_date (date_text y m d) ≡ true
accepts y m d v =
    is_iso_date-date_text y m d v.year_in (day-small y m d v).0 (omega (arith, day-small y m d v))
    ∙ ground (arith, v.day_in)

pub numbered : (y m d : ℕ) → IsDate y m d → to_days (date_text y m d) ≡ days_from_civil y m d
numbered y m d v =
    to_days-date_text y m d v.year_in (day-small y m d v).0 (omega (arith, day-small y m d v))

-- the text of a day of the calendar from year 0 to 9999, with the months' lengths of the calendar's
-- own rules
pub record IsCalendarText (s : List ℕ) : Type 0 where
  pub year : ℕ
  pub month : ℕ
  pub day : ℕ
  pub year_in : year ≤ 9999
  pub month_in : (1 ≤ month) × (month ≤ 12)
  pub day_in : (1 ≤ day) × (day ≤ month_days year month)
  pub text : s ≡ date_text year month day

IsDateText-IsCalendarText : (s : List ℕ) → IsDateText s → IsCalendarText s
IsDateText-IsCalendarText s t =
    let v = t.valid in
    record {
      year = t.year;
      month = t.month;
      day = t.day;
      year_in = v.year_in;
      month_in = v.month_in;
      day_in = (
        v.day_in.0,
        subst (λ n. t.day ≤ n) (days_in_month-eq t.year t.month v.month_in.0 v.month_in.1)
            v.day_in.1,
      );
      text = t.text;
    }

IsCalendarText-IsDate : (s : List ℕ) (t : IsCalendarText s) → IsDate t.year t.month t.day
IsCalendarText-IsDate s t = record {
  year_in = t.year_in;
  month_in = t.month_in;
  day_in = (
    t.day_in.0,
    subst (λ n. t.day ≤ n) (sym (days_in_month-eq t.year t.month t.month_in.0 t.month_in.1))
        t.day_in.1,
  );
}

-- `isISODate` accepts exactly the texts `YYYY-MM-DD` of the days of the Gregorian calendar from year 0
-- to 9999: the months have 31 or 30 days, February 29 in the years that 4 divides, those that 100
-- divides and 400 does not left out, and 28 in the others.
pub is_iso_date-exact : (s : List ℕ) → (is_iso_date s ≡ true) ↔ IsCalendarText s
is_iso_date-exact s = (
  λ ok. IsDateText-IsCalendarText s (is_iso_date-IsDateText s ok),
  λ t.
      subst (λ u. is_iso_date u ≡ true) (sym t.text)
        (accepts t.year t.month t.day (IsCalendarText-IsDate s t)),
)

-- `fromDays` undoes `toDays` on every accepted text.
pub from_days-to_days : (s : List ℕ) → is_iso_date s ≡ true → from_days (to_days s) ≡ s
unfolding from_days
from_days-to_days s ok =
    rw (t.text, numbered y m d v, civil_from_days-days_from_civil y m d v)
      (print_date-date_text y m d v.year_in (omega (arith, v.month_in)) (day-small y m d v).1)
  where
    t : IsDateText s
    t = is_iso_date-IsDateText s ok

    open t use {year as y, month as m, day as d, valid as v}

-- The text of a day number from that of 0000-01-01 to that of 9999-12-31 is accepted, and `toDays`
-- reads the number back from it.
pub to_days-from_days :
    (days : ℤ)
    → min_day ≤ℤ days
    → days ≤ℤ max_day
    → (is_iso_date (from_days days) ≡ true) × (to_days (from_days days) ≡ days)
unfolding from_days
to_days-from_days days lo hi = rw (c.found, printed) (accepts y m d v, numbered y m d v ∙ c.number)
  where
    c : Civil days
    c = days_in_range days lo hi

    open c use {year as y, month as m, day as d, valid as v}

    printed : print_date (pos y, m, d) ≡ date_text y m d
    printed = print_date-date_text y m d v.year_in (omega (arith, v.month_in)) (day-small y m d v).1
