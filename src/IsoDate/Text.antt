-- ===== src/IsoDate/Text.antt =====
-- The text of a date in src/ISODate.ts: what is printed, what is read, and what is accepted.
use vjuga.Base.{
  ℕ, zero, suc, ◌+◌, ◌-◌, ◌*◌, ◌/◌, ◌%◌, ◌≤◌, ◌<◌, ◌≡◌, refl, true, ◌&&◌, leb, arith, if◌then◌else◌,
  ap, ap₂, sym, ◌∙◌, inl, inr, List, [], ◌∷◌, ◌++◌, some, length, get_elem?, lt→ltb, lt-cases,
}
use vjuga.Base.Int.{ℤ, pos, negsuc, pos_part, neg_part, ◌+ℤ◌, ◌*ℤ◌, leb_ℤ}
use vjuga.IsoDate.{
  digits, decimal, pad_start, pad2, two_digits, num2, is_unit, is_iso_date, days_in_month,
  days_from_civil, to_days, print_date,
}
use vjuga.IsoDate.Months.{IsDate}

-- `YYYY-MM-DD`
unfoldable pub date_text : ℕ → ℕ → ℕ → List ℕ
date_text y m d =
    (48 + y / 1000)
    ∷ (48 + y / 100 % 10)
    ∷ (48 + y / 10 % 10)
    ∷ (48 + y % 10)
    ∷ 45
    ∷ (48 + m / 10)
    ∷ (48 + m % 10)
    ∷ 45
    ∷ (48 + d / 10)
    ∷ (48 + d % 10)
    ∷ []

digits-one : (k n : ℕ) → n < 10 → digits (suc k) n ≡ (48 + n) ∷ []
unfolding digits
digits-one k n h = ground arith

digits-more : (k n : ℕ) → 10 ≤ n → digits (suc k) n ≡ digits k (n / 10) ++ ((48 + n % 10) ∷ [])
unfolding digits
digits-more k n h = ground arith

abbrev four : ℕ → List ℕ
four n = (48 + n / 1000) ∷ (48 + n / 100 % 10) ∷ (48 + n / 10 % 10) ∷ (48 + n % 10) ∷ []

decimal-four : (n : ℕ) → 1000 ≤ n → n ≤ 9999 → decimal n ≡ four n
unfolding decimal
decimal-four n lo hi =
    rw
      (
        digits-more 15 n (omega arith),
        digits-more 14 (n / 10) (omega arith),
        digits-more 13 (n / 10 / 10) (omega arith),
        digits-one 12 (n / 10 / 10 / 10) (omega arith),
      )
      (ground arith)

-- the digits of a year, the leading zeros among them
padded : (n : ℕ) → n < 1000 → pad_start (decimal n) 4 ≡ four n
unfolding pad_start decimal
padded n h = elim (lt-cases n 10) as (λ _. pad_start (decimal n) 4 ≡ four n) [
  | inl a ↦ rw (digits-one 15 n a) (ground arith)
  | inr a ↦ elim (lt-cases n 100) as (λ _. pad_start (decimal n) 4 ≡ four n) [
    | inl b ↦ rw (digits-more 15 n a, digits-one 14 (n / 10) (omega arith)) (ground arith)
    | inr b ↦
        rw
          (
            digits-more 15 n a,
            digits-more 14 (n / 10) (omega arith),
            digits-one 13 (n / 10 / 10) (omega arith),
          )
          (ground arith)
  ]
]

pad2-eq : (n : ℕ) → n < 32 → pad2 n ≡ (48 + n / 10) ∷ (48 + n % 10) ∷ []
unfolding pad2 pad_start decimal
pad2-eq n h =
    rw (lt→ltb n 32 h)
      (elim (lt-cases n 10) as (λ _. pad_start (decimal n) 2 ≡ (48 + n / 10) ∷ (48 + n % 10) ∷ []) [
        | inl a ↦ rw (digits-one 15 n a) (ground arith)
        | inr a ↦ rw (digits-more 15 n a, digits-one 14 (n / 10) (omega arith)) (ground arith)
      ])

year_text :
    (y : ℕ)
    → y ≤ 9999
    → (if leb_ℤ (pos 1000) (pos y) then decimal y else pad_start (decimal y) 4) ≡ four y
year_text y h = ground (arith, decimal-four y, padded y)

-- what `fromDays` prints
pub print_date-date_text :
    (y m d : ℕ) → y ≤ 9999 → m < 32 → d < 32 → print_date (pos y, m, d) ≡ date_text y m d
unfolding print_date date_text
print_date-date_text y m d hy hm hd = rw (pad2-eq m hm, pad2-eq d hd, year_text y hy) refl

ap₃ :
    {B : Type 0} (f : ℕ → ℕ → ℕ → B) {a a' b b' c c' : ℕ}
    → a ≡ a'
    → b ≡ b'
    → c ≡ c'
    → f a b c ≡ f a' b' c'
ap₃ f p q r = rw (p, q, r) refl

two_digits-pos :
    (p q : ℕ) → p < 10 → q < 10 → two_digits (some (48 + p)) (some (48 + q)) ≡ pos (p * 10 + q)
unfolding two_digits
two_digits-pos p q h k = ground arith

module _ (y m d : ℕ) (hy : y ≤ 9999) (hm : m < 100) (hd : d < 100) where
  num2-hi : num2 (date_text y m d) 0 ≡ pos (y / 100)
  unfolding num2 date_text
  num2-hi =
      two_digits-pos (y / 1000) (y / 100 % 10) (omega arith) (omega arith) ∙ ap pos (omega arith)

  num2-lo : num2 (date_text y m d) 2 ≡ pos (y % 100)
  unfolding num2 date_text
  num2-lo = two_digits-pos (y / 10 % 10) (y % 10) (omega arith) (omega arith) ∙ ap pos (omega arith)

  num2-month : num2 (date_text y m d) 5 ≡ pos m
  unfolding num2 date_text
  num2-month = two_digits-pos (m / 10) (m % 10) (omega arith) (omega arith) ∙ ap pos (omega arith)

  num2-day : num2 (date_text y m d) 8 ≡ pos d
  unfolding num2 date_text
  num2-day = two_digits-pos (d / 10) (d % 10) (omega arith) (omega arith) ∙ ap pos (omega arith)

  -- what `toDays` reads
  pub to_days-date_text : to_days (date_text y m d) ≡ days_from_civil y m d
  unfolding to_days
  to_days-date_text =
      rw (num2-hi, num2-lo, num2-month, num2-day) (ap (λ k. days_from_civil k m d) (omega arith))

  year-joined : pos (y / 100) *ℤ 100 +ℤ pos (y % 100) ≡ pos y
  unfolding ◌*ℤ◌ ◌+ℤ◌
  year-joined = ground arith

  shape :
      (length (date_text y m d) ≡ 10)
      × (get_elem? (date_text y m d) 4 ≡ some 45)
      × (get_elem? (date_text y m d) 7 ≡ some 45)
  unfolding date_text
  shape = (refl, refl, refl)

  -- `isISODate` tests the fields of the text
  pub is_iso_date-date_text :
      is_iso_date (date_text y m d) ≡ (leb 1 d && leb d (days_in_month (pos y) (pos m)))
  unfolding is_iso_date is_unit
  is_iso_date-date_text =
      rw (shape.0, shape.1, shape.2, num2-hi, num2-lo, num2-month, num2-day, year-joined)
        (ground arith)

-- a month with days is one of the twelve, and has at most 31
pub days_in_month-range :
    (y : ℤ) (m : ℤ)
    → 1 ≤ days_in_month y m
    → (1 ≤ pos_part m) × (pos_part m ≤ 12) × (neg_part m ≡ 0) × (days_in_month y m ≤ 31)
unfolding days_in_month
days_in_month-range y (negsuc n) h = absurd (omega arith)
days_in_month-range y (pos zero) h = absurd (omega arith)
days_in_month-range y (pos (suc zero)) h = ground arith
days_in_month-range y (pos (suc (suc zero))) h = ground arith
days_in_month-range y (pos (suc (suc (suc zero)))) h = ground arith
days_in_month-range y (pos (suc (suc (suc (suc zero))))) h = ground arith
days_in_month-range y (pos (suc (suc (suc (suc (suc zero)))))) h = ground arith
days_in_month-range y (pos (suc (suc (suc (suc (suc (suc zero))))))) h = ground arith
days_in_month-range y (pos (suc (suc (suc (suc (suc (suc (suc zero)))))))) h = ground arith
days_in_month-range y (pos (suc (suc (suc (suc (suc (suc (suc (suc zero))))))))) h = ground arith
days_in_month-range y (pos (suc (suc (suc (suc (suc (suc (suc (suc (suc zero)))))))))) h =
    ground arith
days_in_month-range y (pos (suc (suc (suc (suc (suc (suc (suc (suc (suc (suc zero))))))))))) h =
    ground arith
days_in_month-range y (pos (suc (suc (suc (suc (suc (suc (suc (suc (suc (suc (suc zero))))))))))))
      h =
    ground arith
days_in_month-range y
      (pos (suc (suc (suc (suc (suc (suc (suc (suc (suc (suc (suc (suc zero))))))))))))) h =
    ground arith
days_in_month-range y
      (pos (suc (suc (suc (suc (suc (suc (suc (suc (suc (suc (suc (suc (suc i)))))))))))))) h =
    ground arith

two_digits-range :
    (a b : ℕ)
    → leb_ℤ (pos 0) (two_digits (some a) (some b)) ≡ true
    → (48 ≤ a)
      × (a ≤ 57)
      × (48 ≤ b)
      × (b ≤ 57)
      × (two_digits (some a) (some b) ≡ pos ((a - 48) * 10 + (b - 48)))
unfolding two_digits
two_digits-range a b h = ground arith

-- an accepted text is that of a date
pub record IsDateText (s : List ℕ) : Type 0 where
  pub year : ℕ
  pub month : ℕ
  pub day : ℕ
  pub valid : IsDate year month day
  pub text : s ≡ date_text year month day

module _ (a b c d e f g h i j : ℕ) where
  abbrev units : List ℕ
  units = a ∷ b ∷ c ∷ d ∷ e ∷ f ∷ g ∷ h ∷ i ∷ j ∷ []

  abbrev year_read : ℕ
  year_read = ((a - 48) * 10 + (b - 48)) * 100 + ((c - 48) * 10 + (d - 48))

  abbrev month_read : ℤ
  month_read = two_digits (some f) (some g)

  abbrev day_read : ℕ
  day_read = (i - 48) * 10 + (j - 48)

  abbrev pair : ℕ → ℕ → ℤ
  pair x y = two_digits (some x) (some y)

  module _ (ok : is_iso_date units ≡ true) where
    accepted :
        (e ≡ 45)
        × (h ≡ 45)
        × (leb_ℤ (pos 0) (pair a b) ≡ true)
        × (leb_ℤ (pos 0) (pair c d) ≡ true)
        × (leb_ℤ (pos 1) (pair i j) ≡ true)
        × (leb_ℤ (pair i j) (pos (days_in_month (pair a b *ℤ 100 +ℤ pair c d) month_read)) ≡ true)
    unfolding is_iso_date num2 is_unit
    accepted = ground arith

    hi-range :
        (48 ≤ a) × (a ≤ 57) × (48 ≤ b) × (b ≤ 57) × (pair a b ≡ pos ((a - 48) * 10 + (b - 48)))
    hi-range = two_digits-range a b accepted.2

    lo-range :
        (48 ≤ c) × (c ≤ 57) × (48 ≤ d) × (d ≤ 57) × (pair c d ≡ pos ((c - 48) * 10 + (d - 48)))
    lo-range = two_digits-range c d accepted.3

    day-range : (48 ≤ i) × (i ≤ 57) × (48 ≤ j) × (j ≤ 57) × (pair i j ≡ pos day_read)
    day-range = two_digits-range i j (ground (arith, accepted))

    month-range :
        (1 ≤ pos_part month_read)
        × (pos_part month_read ≤ 12)
        × (neg_part month_read ≡ 0)
        × (days_in_month (pair a b *ℤ 100 +ℤ pair c d) month_read ≤ 31)
    month-range = days_in_month-range _ month_read (ground (arith, accepted))

    month-digits :
        (48 ≤ f) × (f ≤ 57) × (48 ≤ g) × (g ≤ 57) × (month_read ≡ pos ((f - 48) * 10 + (g - 48)))
    month-digits = two_digits-range f g (ground (arith, month-range))

    year-joined' : pair a b *ℤ 100 +ℤ pair c d ≡ pos year_read
    unfolding ◌*ℤ◌ ◌+ℤ◌
    year-joined' = rw (hi-range.4, lo-range.4) (ground arith)

    units-date_text : units ≡ date_text year_read (pos_part month_read) day_read
    unfolding date_text
    units-date_text =
        rw month-digits.4 (ground (arith, accepted, hi-range, lo-range, day-range, month-digits))

    month-eq : month_read ≡ pos (pos_part month_read)
    month-eq = month-digits.4 ∙ sym (ap (λ z. pos (pos_part z)) month-digits.4)

    length-eq :
        days_in_month (pair a b *ℤ 100 +ℤ pair c d) month_read
        ≡ days_in_month (pos year_read) (pos (pos_part month_read))
    length-eq = ap₂ days_in_month year-joined' month-eq

    day-fits :
        (1 ≤ day_read) × (day_read ≤ days_in_month (pos year_read) (pos (pos_part month_read)))
    day-fits = ground (arith, accepted, length-eq, day-range)

    units-IsDateText : IsDateText units
    units-IsDateText = record {
      year = year_read;
      month = pos_part month_read;
      day = day_read;
      valid = record {
        year_in = omega (arith, hi-range, lo-range);
        month_in = (month-range.0, month-range.1);
        day_in = day-fits;
      };
      text = units-date_text;
    }

-- only the text of a date is accepted
pub is_iso_date-IsDateText : (s : List ℕ) → is_iso_date s ≡ true → IsDateText s
unfolding is_iso_date
is_iso_date-IsDateText [] ok = ground arith
is_iso_date-IsDateText (a ∷ []) ok = ground arith
is_iso_date-IsDateText (a ∷ b ∷ []) ok = ground arith
is_iso_date-IsDateText (a ∷ b ∷ c ∷ []) ok = ground arith
is_iso_date-IsDateText (a ∷ b ∷ c ∷ d ∷ []) ok = ground arith
is_iso_date-IsDateText (a ∷ b ∷ c ∷ d ∷ e ∷ []) ok = ground arith
is_iso_date-IsDateText (a ∷ b ∷ c ∷ d ∷ e ∷ f ∷ []) ok = ground arith
is_iso_date-IsDateText (a ∷ b ∷ c ∷ d ∷ e ∷ f ∷ g ∷ []) ok = ground arith
is_iso_date-IsDateText (a ∷ b ∷ c ∷ d ∷ e ∷ f ∷ g ∷ h ∷ []) ok = ground arith
is_iso_date-IsDateText (a ∷ b ∷ c ∷ d ∷ e ∷ f ∷ g ∷ h ∷ i ∷ []) ok = ground arith
is_iso_date-IsDateText (a ∷ b ∷ c ∷ d ∷ e ∷ f ∷ g ∷ h ∷ i ∷ j ∷ []) ok =
    units-IsDateText a b c d e f g h i j ok
is_iso_date-IsDateText (a ∷ b ∷ c ∷ d ∷ e ∷ f ∷ g ∷ h ∷ i ∷ j ∷ k ∷ rest) ok = ground arith
