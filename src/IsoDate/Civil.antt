-- ===== src/IsoDate/Civil.antt =====
-- The arithmetic of src/ISODate.ts within an era of 400 years, whose years begin in March.
use vjuga.Base.{ℕ, suc, ◌+◌, ◌-◌, ◌*◌, ◌/◌, ◌≤◌, ◌<◌, ◌≡◌, refl, ltb, arith, if◌then◌else◌}
use vjuga.IsoDate.{year_of_era}

-- the days of the era before its year `n`
unfoldable pub year_start : ℕ → ℕ
year_start n = 365 * n + n / 4 - n / 100 + n / 400

pub year_start-400 : year_start 400 ≡ 146097
unfolding year_start
year_start-400 = refl

pub year_of_era-eq :
    (yoe doy : ℕ)
    → yoe < 400
    → year_start yoe + doy < year_start (suc yoe)
    → year_of_era (year_start yoe + doy) ≡ yoe
unfolding year_of_era year_start
year_of_era-eq yoe doy lt hi = omega arith

-- the month of the year, counted from March, and the day of the month
pub month-day :
    (doy : ℕ)
    → doy < 366
    → (mp d : ℕ) → mp ≡ (5 * doy + 2) / 153
    → d ≡ doy - (153 * mp + 2) / 5 + 1
    → (mp ≤ 11) × (1 ≤ d) × (d ≤ 31) × ((153 * mp + 2) / 5 + d - 1 ≡ doy)
month-day doy h mp d e k = omega arith

pub year_of_era-bounds :
    (doe : ℕ)
    → doe < 146097
    → (year_of_era doe < 400)
      × (year_start (year_of_era doe) ≤ doe)
      × (doe < year_start (suc (year_of_era doe)))
unfolding year_of_era year_start
year_of_era-bounds doe h = omega arith

-- a date of month 1 to 12 as months and days from March
pub month-back :
    (m d mp doy : ℕ)
    → 1 ≤ m
    → m ≤ 12
    → 1 ≤ d
    → d ≤ 31
    → (if ltb 2 m then m - 3 else m + 9) ≡ mp
    → doy ≡ (153 * mp + 2) / 5 + d - 1
    → 5 * doy + 2 < 153 * suc mp
    → ((5 * doy + 2) / 153 ≡ mp)
      × (doy - (153 * mp + 2) / 5 + 1 ≡ d)
      × ((if ltb mp 10 then mp + 3 else mp - 9) ≡ m)
month-back m d mp doy h k l n e f g = ground arith
