-- ===== src/IsoDate/Tests.antt =====
-- Runs of src/ISODate.ts, and its theorems at concrete dates.
use vjuga.Base.{ℕ, ◌≡◌, refl, true, List, [], ◌∷◌, some, ◌↔◌, arith}
use vjuga.Base.Int.{pos, negsuc, ◌+ℤ◌, ◌-ℤ◌, ◌*ℤ◌, ◌≤ℤ◌, floor_div}
use vjuga.IsoDate.{
  is_iso_date, to_days, from_days, add_days, is_safe, from_date, to_date, num2, two_digits, is_unit,
  days_in_month, days_from_civil, civil_from_days, year_of_era, print_date, pad2, pad_start,
  decimal, digits, check_range,
}
use vjuga.IsoDate.Calendar.{IsCalendarText, is_iso_date-exact, from_days-to_days, to_days-from_days}
use vjuga.IsoDate.Range.{add_days_iff, add_days-add_days, from_date-to_date}

-- 2024-02-28
abbrev february : List ℕ
february = 50 ∷ 48 ∷ 50 ∷ 52 ∷ 45 ∷ 48 ∷ 50 ∷ 45 ∷ 50 ∷ 56 ∷ []

-- 0000-01-01
abbrev first_date : List ℕ
first_date = 48 ∷ 48 ∷ 48 ∷ 48 ∷ 45 ∷ 48 ∷ 49 ∷ 45 ∷ 48 ∷ 49 ∷ []

february_day : to_days february ≡ pos 19781
unfolding to_days days_from_civil num2 two_digits ◌-ℤ◌ ◌+ℤ◌ ◌*ℤ◌ floor_div
february_day = refl

first_day : to_days first_date ≡ negsuc 719527
unfolding to_days days_from_civil num2 two_digits ◌-ℤ◌ ◌+ℤ◌ ◌*ℤ◌ floor_div
first_day = refl

last_text : from_days (pos 2932896) ≡ (57 ∷ 57 ∷ 57 ∷ 57 ∷ 45 ∷ 49 ∷ 50 ∷ 45 ∷ 51 ∷ 49 ∷ [])
unfolding from_days print_date civil_from_days year_of_era pad2 pad_start decimal digits ◌-ℤ◌ ◌+ℤ◌
    ◌*ℤ◌ floor_div
last_text = refl

first_text : from_days (negsuc 719527) ≡ first_date
unfolding from_days print_date civil_from_days year_of_era pad2 pad_start decimal digits ◌-ℤ◌ ◌+ℤ◌
    ◌*ℤ◌ floor_div
first_text = refl

-- 2024-02-29
abbrev leap : List ℕ
leap = 50 ∷ 48 ∷ 50 ∷ 52 ∷ 45 ∷ 48 ∷ 50 ∷ 45 ∷ 50 ∷ 57 ∷ []

-- 2024-03-01
abbrev march : List ℕ
march = 50 ∷ 48 ∷ 50 ∷ 52 ∷ 45 ∷ 48 ∷ 51 ∷ 45 ∷ 48 ∷ 49 ∷ []

leap_day : add_days february (pos 1) ≡ some leap
unfolding add_days check_range to_days days_from_civil num2 two_digits from_days print_date
    civil_from_days year_of_era pad2 pad_start decimal digits ◌-ℤ◌ ◌+ℤ◌ ◌*ℤ◌ floor_div
leap_day = refl

march_day : add_days leap (pos 1) ≡ some march
unfolding add_days check_range to_days days_from_civil num2 two_digits from_days print_date
    civil_from_days year_of_era pad2 pad_start decimal digits ◌-ℤ◌ ◌+ℤ◌ ◌*ℤ◌ floor_div
march_day = refl

february-accepted : is_iso_date february ≡ true
unfolding is_iso_date num2 two_digits is_unit days_in_month ◌*ℤ◌ ◌+ℤ◌
february-accepted = refl

from_days-to_days_example : from_days (to_days february) ≡ february
from_days-to_days_example = from_days-to_days february february-accepted

to_days-from_days_example :
    (is_iso_date (from_days (negsuc 719527)) ≡ true)
    × (to_days (from_days (negsuc 719527)) ≡ negsuc 719527)
to_days-from_days_example = to_days-from_days (negsuc 719527) (omega arith) (omega arith)

is_iso_date-exact_example : (is_iso_date february ≡ true) ↔ IsCalendarText february
is_iso_date-exact_example = is_iso_date-exact february

add_days_iff_example : (add_days february (pos 1) ≡ some leap) ↔ (
    (is_safe (pos 1) ≡ true)
    × (is_iso_date leap ≡ true)
    × (to_days leap ≡ to_days february +ℤ pos 1))
add_days_iff_example = add_days_iff february leap (pos 1)

add_days-add_days_example : add_days february (pos 1 +ℤ pos 1) ≡ some march
add_days-add_days_example =
    add_days-add_days february leap march (pos 1) (pos 1) february-accepted leap_day march_day

from_date-to_date_example : (from_date (some (pos 1709078400007)) ≡ some february) ↔ (
    (is_iso_date february ≡ true)
    × (to_date february ≤ℤ pos 1709078400007)
    × (pos 1709078400007 ≤ℤ to_date february +ℤ pos 86399999))
from_date-to_date_example = from_date-to_date (pos 1709078400007) february
