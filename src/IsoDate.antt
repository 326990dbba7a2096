-- ===== src/IsoDate.antt =====
-- src/ISODate.ts: calendar dates as text. A string is the list of its UTF-16 units, a number an
-- integer; a quotient with `| 0` has no negative operand and is the quotient of numbers.
pub mod Text
pub mod Civil
pub mod Years
pub mod Months
pub mod Days
pub mod Calendar
pub mod Range
pub mod Tomorrow
mod Tests
use vjuga.Base.{
  ℕ, zero, suc, ◌+◌, ◌-◌, ◌*◌, ◌/◌, ◌%◌, Bool, true, false, not, ◌&&◌, ◌||◌, Option, none, some,
  List, [], ◌∷◌, ◌++◌, ltb, leb, ◌==◌, if◌then◌else◌, length, get_elem?, replicate, ◌>>=◌,
}
use vjuga.Base.Int.{ℤ, pos, negsuc, pos_part, neg_part, ◌+ℤ◌, ◌-ℤ◌, ◌*ℤ◌, leb_ℤ, floor_div}

-- the digits of `String(n)` for n < 10 ^ fuel
unfoldable pub digits : ℕ → ℕ → List ℕ
digits zero n = []
digits (suc fuel) n =
    let rest = digits fuel (n / 10) in
    if ltb n 10 then (48 + n) ∷ [] else rest ++ ((48 + n % 10) ∷ [])

-- `String(n)`, for the numbers below 2 ^ 53
unfoldable pub decimal : ℕ → List ℕ
decimal n = digits 16 n

-- `s.padStart(n, "0")`
unfoldable pub pad_start : List ℕ → ℕ → List ℕ
pad_start s n = replicate (n - length s) 48 ++ s

-- the text of `undefined`
abbrev undefined_text : List ℕ
undefined_text = 117 ∷ 110 ∷ 100 ∷ 101 ∷ 102 ∷ 105 ∷ 110 ∷ 101 ∷ 100 ∷ []

-- `PAD2[i]` in a template
unfoldable pub pad2 : ℕ → List ℕ
pad2 i = if ltb i 32 then pad_start (decimal i) 2 else undefined_text

abbrev pub month_table : List ℕ
month_table = 31 ∷ 28 ∷ 31 ∷ 30 ∷ 31 ∷ 30 ∷ 31 ∷ 31 ∷ 30 ∷ 31 ∷ 30 ∷ 31 ∷ []

abbrev or_zero : Option ℕ → ℕ
or_zero none = 0
or_zero (some n) = n

-- `year % k === 0`
abbrev divides : ℕ → ℤ → Bool
divides k year = (pos_part year + neg_part year) % k == 0

unfoldable pub days_in_month : ℤ → ℤ → ℕ
days_in_month year (negsuc n) = 0
days_in_month year (pos zero) = 0
days_in_month year (pos (suc i)) =
    if i == 1
    then if divides 4 year && (not (divides 100 year) || divides 400 year) then 29 else 28
    else or_zero (get_elem? month_table i)

abbrev pub is_digit : ℕ → Bool
is_digit c = leb 48 c && leb c 57

-- `num2` of the two units read; one past the end is `NaN`, which passes no test
unfoldable pub two_digits : Option ℕ → Option ℕ → ℤ
two_digits (some a) (some b) =
    if is_digit a && is_digit b then pos ((a - 48) * 10 + (b - 48)) else negsuc 0
two_digits (some a) none = negsuc 0
two_digits none b = negsuc 0

unfoldable pub num2 : List ℕ → ℕ → ℤ
num2 s i = two_digits (get_elem? s i) (get_elem? s (i + 1))

-- `s.charCodeAt(i) === c`
unfoldable pub is_unit : Option ℕ → ℕ → Bool
is_unit (some a) c = a == c
is_unit none c = false

unfoldable pub is_iso_date : List ℕ → Bool
is_iso_date value =
    let hi = num2 value 0 in
    let lo = num2 value 2 in
    let month = num2 value 5 in
    let day = num2 value 8 in
    if not (length value == 10)
      || not (is_unit (get_elem? value 4) 45)
      || not (is_unit (get_elem? value 7) 45)
    then false
    else leb_ℤ (pos 0) hi
      && leb_ℤ (pos 0) lo
      && leb_ℤ (pos 1) day
      && leb_ℤ day (pos (days_in_month (hi *ℤ 100 +ℤ lo) month))

-- `isoDate`; the model's `none` is the RangeError
unfoldable pub iso_date : List ℕ → Option (List ℕ)
iso_date value = if is_iso_date value then some value else none

abbrev pub min_day : ℤ
min_day = negsuc 719527

abbrev pub max_day : ℤ
max_day = pos 2932896

-- `toDays` past the reading of the fields; `yoe` is what remains of a division that rounds down,
-- so it is not negative
unfoldable pub days_from_civil : ℕ → ℕ → ℕ → ℤ
days_from_civil year m d =
    let y = pos year -ℤ pos (if leb m 2 then 1 else 0) in
    let era = floor_div y 400 in
    let yoe = pos_part (y -ℤ era *ℤ 400) in
    let doy = (153 * (if ltb 2 m then m - 3 else m + 9) + 2) / 5 + d - 1 in
    let doe = yoe * 365 + yoe / 4 - yoe / 100 + doy in era *ℤ 146097 +ℤ pos doe -ℤ pos 719468

-- `toDays`; the fields of a branded date are digits, so none of them is -1
unfoldable pub to_days : List ℕ → ℤ
to_days date =
    days_from_civil (pos_part (num2 date 0) * 100 + pos_part (num2 date 2)) (pos_part (num2 date 5))
      (pos_part (num2 date 8))

-- the year of the era that holds a day of the era
unfoldable pub year_of_era : ℕ → ℕ
year_of_era doe = (doe - doe / 1460 + doe / 36524 - doe / 146096) / 365

-- `fromDays` up to the text: year, month and day
unfoldable pub civil_from_days : ℤ → ℤ × ℕ × ℕ
civil_from_days days =
    let z = days +ℤ pos 719468 in
    let era = floor_div z 146097 in
    let doe = pos_part (z -ℤ era *ℤ 146097) in
    let yoe = year_of_era doe in
    let doy = doe - (365 * yoe + yoe / 4 - yoe / 100) in
    let mp = (5 * doy + 2) / 153 in
    let d = doy - (153 * mp + 2) / 5 + 1 in
    let m = if ltb mp 10 then mp + 3 else mp - 9 in
    (pos yoe +ℤ era *ℤ 400 +ℤ pos (if leb m 2 then 1 else 0), m, d)

-- the template of `fromDays`; the year of a day in range is not negative
unfoldable pub print_date : ℤ × ℕ × ℕ → List ℕ
print_date (y, m, d) =
    let year = decimal (pos_part y) in
    (if leb_ℤ (pos 1000) y then year else pad_start year 4) ++ 45 ∷ pad2 m ++ 45 ∷ pad2 d

unfoldable pub from_days : ℤ → List ℕ
from_days days = print_date (civil_from_days days)

unfoldable pub check_range : ℤ → Option ℤ
check_range days = if leb_ℤ min_day days && leb_ℤ days max_day then some days else none

-- `fromDate` of a time in milliseconds; that of an invalid date is `NaN`
unfoldable pub from_date : Option ℤ → Option (List ℕ)
from_date none = none
from_date (some time) = do days ← check_range (floor_div time 86400000); some (from_days days)

-- `Number.isSafeInteger` of an integer
abbrev pub is_safe : ℤ → Bool
is_safe n = leb_ℤ (negsuc 9007199254740990) n && leb_ℤ n (pos 9007199254740991)

-- `addDays` of an integer
unfoldable pub add_days : List ℕ → ℤ → Option (List ℕ)
add_days date n = do
  safe ← if is_safe n then some n else none
  days ← check_range (to_days date +ℤ safe)
  some (from_days days)

-- the time of `toDate`, in milliseconds
unfoldable pub to_date : List ℕ → ℤ
to_date date = to_days date *ℤ 86400000
