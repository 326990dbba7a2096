-- ===== src/IsoDate/Years.antt =====
-- The eras of src/ISODate.ts: the integer quotients, moved up by one era to be quotients of numbers.
use vjuga.Base.{ℕ, ◌+◌, ◌-◌, ◌*◌, ◌/◌, ◌%◌, ◌≤◌, ◌<◌, ◌≡◌, ltb, leb, arith, if◌then◌else◌, ap}
use vjuga.Base.Int.{ℤ, pos, negsuc, pos_part, neg_part, ◌+ℤ◌, ◌-ℤ◌, ◌*ℤ◌, floor_div}
use vjuga.IsoDate.{days_from_civil, civil_from_days, year_of_era}
use vjuga.IsoDate.Civil.{year_start}

-- `n` is the integer `a`, moved up by `k`
abbrev pub Moved : ℕ → ℤ → ℕ → Type 0
Moved k a n = pos_part a + k ≡ neg_part a + n

floor_div-400 : (a : ℤ) (n : ℕ) → Moved 400 a n → Moved 1 (floor_div a 400) (n / 400)
unfolding floor_div
floor_div-400 (pos k) n h = omega arith
floor_div-400 (negsuc k) n h = omega arith

floor_div-146097 : (a : ℤ) (n : ℕ) → Moved 146097 a n → Moved 1 (floor_div a 146097) (n / 146097)
unfolding floor_div
floor_div-146097 (pos k) n h = omega arith
floor_div-146097 (negsuc k) n h = omega arith

-- what the floored quotient leaves is the remainder
rest-400 : (a : ℤ) (n : ℕ) → Moved 400 a n → pos_part (a -ℤ floor_div a 400 *ℤ 400) ≡ n % 400
unfolding ◌-ℤ◌ ◌*ℤ◌
rest-400 a n h = ground (arith, floor_div-400 a n h)

rest-146097 :
    (a : ℤ) (n : ℕ) → Moved 146097 a n → pos_part (a -ℤ floor_div a 146097 *ℤ 146097) ≡ n % 146097
unfolding ◌-ℤ◌ ◌*ℤ◌
rest-146097 a n h = ground (arith, floor_div-146097 a n h)

abbrev pub early : ℕ → ℕ
early m = if leb m 2 then 1 else 0

-- the year that began in March, moved up by 400
abbrev pub march_year : ℕ → ℕ → ℕ
march_year y m = y + 400 - early m

abbrev pub march_day : ℕ → ℕ → ℕ
march_day m d = (153 * (if ltb 2 m then m - 3 else m + 9) + 2) / 5 + d - 1

-- the day counted from March of the year -400
abbrev pub index : ℕ → ℕ → ℕ → ℕ
index y m d = march_year y m / 400 * 146097 + year_start (march_year y m % 400) + march_day m d

abbrev shifted : ℕ → ℕ → ℤ
shifted y m = pos y -ℤ pos (early m)

shifted-Moved : (y m : ℕ) → Moved 400 (shifted y m) (march_year y m)
unfolding ◌-ℤ◌
shifted-Moved y m = ground arith

assemble :
    (e : ℤ) (q doe : ℕ)
    → Moved 1 e q
    → Moved 865565 (e *ℤ 146097 +ℤ pos doe -ℤ pos 719468) (q * 146097 + doe)
unfolding ◌+ℤ◌ ◌*ℤ◌ ◌-ℤ◌
assemble e q doe h = ground arith

year_start-below : (n : ℕ) → n < 400 → year_start n ≡ n * 365 + n / 4 - n / 100
unfolding year_start
year_start-below n h = omega arith

pub days_from_civil-index : (y m d : ℕ) → 1 ≤ d → Moved 865565 (days_from_civil y m d) (index y m d)
unfolding days_from_civil
days_from_civil-index y m d h = rw (rest-400 (shifted y m) (march_year y m) (shifted-Moved y m)) (
    omega (
      arith,
      assemble (floor_div (shifted y m) 400) (march_year y m / 400)
          (march_year y m % 400 * 365
            + march_year y m % 400 / 4
            - march_year y m % 400 / 100
            + march_day m d)
          (floor_div-400 (shifted y m) (march_year y m) (shifted-Moved y m)),
      year_start-below (march_year y m % 400) (omega arith),
    ))

-- the parts of a day's date that `civil_from_days` computes, by its index `n`
abbrev pub of_year : ℕ → ℕ
of_year n = year_of_era (n % 146097)

abbrev pub of_day : ℕ → ℕ
of_day n = n % 146097 - (365 * of_year n + of_year n / 4 - of_year n / 100)

abbrev pub of_month : ℕ → ℕ
of_month n = (5 * of_day n + 2) / 153

abbrev pub calendar_month : ℕ → ℕ
calendar_month mp = if ltb mp 10 then mp + 3 else mp - 9

disassemble :
    (e : ℤ) (q yoe k y : ℕ)
    → Moved 1 e q
    → yoe + q * 400 + k ≡ y + 400
    → pos yoe +ℤ e *ℤ 400 +ℤ pos k ≡ pos y
unfolding ◌+ℤ◌ ◌*ℤ◌
disassemble e q yoe k y h j = ground arith

z-Moved : (days : ℤ) (n : ℕ) → Moved 865565 days n → Moved 146097 (days +ℤ pos 719468) n
unfolding ◌+ℤ◌
z-Moved days n h = ground arith

pub civil_from_days-index :
    (days : ℤ) (n y : ℕ)
    → Moved 865565 days n
    → of_year n + n / 146097 * 400 + early (calendar_month (of_month n)) ≡ y + 400
    → civil_from_days days
      ≡ (pos y, calendar_month (of_month n), of_day n - (153 * of_month n + 2) / 5 + 1)
unfolding civil_from_days
civil_from_days-index days n y h j = rw (rest-146097 (days +ℤ pos 719468) n (z-Moved days n h)) (
    ap
      (λ (year : ℤ). (year, calendar_month (of_month n), of_day n - (153 * of_month n + 2) / 5 + 1))
      (disassemble (floor_div (days +ℤ pos 719468) 146097) (n / 146097) _ _ y
        (floor_div-146097 _ n (z-Moved days n h)) j))
