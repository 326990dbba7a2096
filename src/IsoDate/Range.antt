-- ===== src/IsoDate/Range.antt =====
-- `addDays`, `fromDate` and `toDate` of src/ISODate.ts, and the day after a day.
use vjuga.Base.{
  ℕ, ◌≤◌, ◌≡◌, refl, true, arith, ap, sym, ◌∙◌, subst, inl, inr, ◌↔◌, List, Option, some, none,
  Bool-cases, ◌>>=◌,
}
use vjuga.Base.Int.{ℤ, pos, negsuc, ◌+ℤ◌, ◌*ℤ◌, ◌≤ℤ◌, floor_div, +ℤ_parts, +ℤ_assoc}
use mathlib.Core.Option.{some_inj}
use vjuga.IsoDate.{
  is_iso_date, days_from_civil, to_days, from_days, check_range, min_day, max_day, add_days,
  is_safe, from_date, to_date,
}
use vjuga.IsoDate.Civil.{year_start}
use vjuga.IsoDate.Years.{index, days_from_civil-index}
use vjuga.IsoDate.Months.{IsDate, days_in_month-eq, month_days}
use vjuga.IsoDate.Text.{IsDateText, is_iso_date-IsDateText}
use vjuga.IsoDate.Calendar.{numbered, from_days-to_days, to_days-from_days}

module _ (y m d : ℕ) (v : IsDate y m d) where
  in-month : d ≤ month_days y m
  in-month = subst (λ k. d ≤ k) (days_in_month-eq y m v.month_in.0 v.month_in.1) v.day_in.1

  index-range : (146037 ≤ index y m d) × (index y m d ≤ 3798461)
  unfolding year_start
  index-range = ground (arith, v.year_in, v.month_in, v.day_in, in-month)

  days_from_civil-range : (min_day ≤ℤ days_from_civil y m d) × (days_from_civil y m d ≤ℤ max_day)
  days_from_civil-range = omega (arith, index-range, days_from_civil-index y m d v.day_in.0)

-- `toDays` of an accepted text lies in the range that `checkRange` admits.
pub to_days-range :
    (s : List ℕ) → is_iso_date s ≡ true → (min_day ≤ℤ to_days s) × (to_days s ≤ℤ max_day)
to_days-range s ok = rw (t.text, numbered y m d v) (days_from_civil-range y m d v)
  where
    t : IsDateText s
    t = is_iso_date-IsDateText s ok

    open t use {year as y, month as m, day as d, valid as v}

in_range : (days : ℤ) → min_day ≤ℤ days → days ≤ℤ max_day → check_range days ≡ some days
unfolding check_range
in_range days lo hi = ground arith

check_range-some :
    (days k : ℤ) → check_range days ≡ some k → (k ≡ days) × (min_day ≤ℤ days) × (days ≤ℤ max_day)
unfolding check_range
check_range-some days k e = ground arith

abbrev printed : Option ℤ → Option (List ℕ)
printed o = o >>= λ k. some (from_days k)

-- what is returned past the range check is a date with that day number
returned-from :
    (days : ℤ) (t : List ℕ) (o : Option ℤ)
    → check_range days ≡ o
    → printed o ≡ some t
    → (is_iso_date t ≡ true) × (to_days t ≡ days)
returned-from days t none f e = absurd (ground arith)
returned-from days t (some k) f e =
    subst (λ u. (is_iso_date u ≡ true) × (to_days u ≡ days)) (some_inj.0 e)
      (subst (λ z. (is_iso_date (from_days z) ≡ true) × (to_days (from_days z) ≡ days))
        (sym (check_range-some days k f).0)
        (to_days-from_days days (check_range-some days k f).1 (check_range-some days k f).2))

returns :
    (days : ℤ) (t : List ℕ)
    → is_iso_date t ≡ true
    → to_days t ≡ days
    → printed (check_range days) ≡ some t
returns days t ok e =
    rw (← e, in_range (to_days t) (to_days-range t ok).0 (to_days-range t ok).1)
      (ap some (from_days-to_days t ok))

-- `addDays` returns `t` exactly if the count is a safe integer and `t` is the date whose day number
-- is that much further; it throws if there is none.
pub add_days_iff :
    (s t : List ℕ) (n : ℤ)
    → (add_days s n ≡ some t)
      ↔ ((is_safe n ≡ true) × (is_iso_date t ≡ true) × (to_days t ≡ to_days s +ℤ n))
unfolding add_days
add_days_iff s t n = elim (Bool-cases (is_safe n)) [
  | inl safe ↦ rw safe (
    λ e. let r = returned-from (to_days s +ℤ n) t _ refl e in (refl, r.0, r.1),
    λ h. returns (to_days s +ℤ n) t h.1 h.2,
  )
  | inr unsafe ↦ rw unsafe (λ e. absurd (ground arith), λ h. absurd (ground arith))
]

-- Days add up: adding two counts one after the other is adding their sum.
pub add_days-add_days :
    (s t u : List ℕ) (a b : ℤ)
    → is_iso_date s ≡ true
    → add_days s a ≡ some t
    → add_days t b ≡ some u
    → add_days s (a +ℤ b) ≡ some u
add_days-add_days s t u a b ok e f = (add_days_iff s u (a +ℤ b)).1 (
  ground (arith, to_days-range s ok, to_days-range u second.1, sum, +ℤ_parts (to_days s) (a +ℤ b)),
  second.1,
  sum,
)
  where
    first : (is_safe a ≡ true) × (is_iso_date t ≡ true) × (to_days t ≡ to_days s +ℤ a)
    first = (add_days_iff s t a).0 e

    second : (is_safe b ≡ true) × (is_iso_date u ≡ true) × (to_days u ≡ to_days t +ℤ b)
    second = (add_days_iff t u b).0 f

    sum : to_days u ≡ to_days s +ℤ (a +ℤ b)
    sum = second.2 ∙ ap (λ k. k +ℤ b) first.2 ∙ +ℤ_assoc (to_days s) a b

floor_div-days :
    (time days : ℤ)
    → (floor_div time 86400000 ≡ days)
      ↔ ((days *ℤ 86400000 ≤ℤ time) × ((time ≤ℤ days *ℤ 86400000 +ℤ pos 86399999)))
unfolding floor_div ◌*ℤ◌ ◌+ℤ◌
floor_div-days (pos n) (pos k) = ground arith
floor_div-days (pos n) (negsuc k) = ground arith
floor_div-days (negsuc n) (pos k) = ground arith
floor_div-days (negsuc n) (negsuc k) = ground arith

-- `fromDate` returns the date `t` exactly for the times of its day: those from `toDate` of `t` on
-- and less than 86,400,000 ms later.
pub from_date-to_date :
    (time : ℤ) (t : List ℕ)
    → (from_date (some time) ≡ some t)
      ↔ ((is_iso_date t ≡ true) × (to_date t ≤ℤ time) × (time ≤ℤ to_date t +ℤ pos 86399999))
unfolding from_date to_date
from_date-to_date time t = (
  λ e.
      let r = returned-from (floor_div time 86400000) t _ refl e in
      let q = (floor_div-days time (to_days t)).0 (sym r.1) in (r.0, q.0, q.1),
  λ h.
      returns (floor_div time 86400000) t h.0
        (sym ((floor_div-days time (to_days t)).1 (h.1, h.2))),
)
