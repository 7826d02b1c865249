-- ===== src/Time/Calendar.antt =====
-- The calendar of src/timeanchor.cpp against the Gregorian rules: days counted one year and one
-- month at a time from 1970-01-01.
use vorsprung_logger.Base.{
  ℕ, zero, suc, ◌+◌, ◌-◌, ◌*◌, ◌%◌, ◌^◌, ◌≤◌, ◌<◌, ◌≡◌, refl, sym, ap, ◌∙◌, Bool, true, not, ◌&&◌,
  ◌||◌, ltb, leb, ◌==◌, if◌then◌else◌, arith, u32_mod,
}
use mathlib.Core.Path.{subst₂}
use native.Mathlib.Decide.{dec_lt}
use vorsprung_logger.Base.Check.{checks, checks_lem}
use vorsprung_logger.Time.Civil.{days_from_civil, fits_long, civil_to_epoch, Civil, civil_from_days}

abbrev pub is_leap : ℕ → Bool
is_leap y = y % 4 == 0 && (not (y % 100 == 0) || y % 400 == 0)

abbrev pub days_in_month : ℕ → ℕ → ℕ
days_in_month y m =
    let february : ℕ = if is_leap y then 29 else 28 in
    if m == 4 || m == 6 || m == 9 || m == 11 then 30 else if m == 2 then february else 31

-- Days of the `n` years from 1970 on.
unfoldable pub days_of_years : ℕ → ℕ
days_of_years zero = 0
days_of_years (suc n) = days_of_years n + (if is_leap (1970 + n) then 366 else 365)

-- Days of the first `n` months of year `y`.
unfoldable pub days_of_months : ℕ → ℕ → ℕ
days_of_months y zero = 0
days_of_months y (suc n) = days_of_months y n + days_in_month y (suc n)

-- The number of a date, counted from 1970-01-01.
unfoldable pub day_count : Civil → ℕ
day_count c = days_of_years (c.year - 1970) + days_of_months c.year (c.month - 1) + (c.day - 1)

abbrev pub is_date : Civil → Bool
is_date c =
    leb 1 c.month && leb c.month 12 && leb 1 c.day && leb c.day (days_in_month c.year c.month)

-- A date of the calendar.
pub record IsDate (c : Civil) : Type 0 where
  pub month_in : (1 ≤ c.month) × (c.month ≤ 12)
  pub day_in : (1 ≤ c.day) × (c.day ≤ days_in_month c.year c.month)

abbrev first_day : ℕ → ℕ → Civil
first_day y m = record { year = y; month = m; day = 1 }

-- The last of the 136 years whose seconds fit 32 bits ends on day 49673.
agrees_at : ℕ → ℕ → Bool
agrees_at k i =
    let c = first_day (1970 + k) (suc i) in
    days_from_civil c.year c.month 1 == day_count c
    && leb (day_count c + days_in_month c.year c.month) 49673

month_table : checks (λ k. checks (agrees_at k) 12) 136 ≡ true
unfolding checks agrees_at days_from_civil day_count days_of_years days_of_months
month_table = refl

day_check : ℕ → Bool
day_check n =
    let c = civil_from_days n in
    is_date c
    && (leb 1970 c.year && leb c.year 2106)
    && ((ltb n 10957 || leb 2000 c.year) && (leb 24856 n || leb c.year 2038))
    && days_from_civil c.year c.month c.day == n

day_table_low : checks (λ n. day_check n) 25000 ≡ true
unfolding checks day_check civil_from_days days_from_civil
day_table_low = refl

day_table_high : checks (λ n. day_check (25000 + n)) 25000 ≡ true
unfolding checks day_check civil_from_days days_from_civil
day_table_high = refl

day_check-true : (n : ℕ) → n < 50000 → day_check n ≡ true
day_check-true n h = elim (dec_lt n 25000) [
  | yes p ↦ checks_lem (λ n. day_check n) 25000 n p day_table_low
  | no p ↦
      ap day_check (sym (e p))
      ∙ checks_lem (λ n. day_check (25000 + n)) 25000 (n - 25000) (omega arith) day_table_high
]
  where
    e : ¬ (n < 25000) → 25000 + (n - 25000) ≡ n
    e p = omega arith

-- Within a month the days are numbered one after the other.
days_from_civil-day :
    (y m d : ℕ) → 1 ≤ d → days_from_civil y m d ≡ (days_from_civil y m 1 + (d - 1)) % u32_mod
unfolding days_from_civil
days_from_civil-day y m d h = ground arith

-- A day that fits 32-bit seconds is turned into a date of the calendar, with that day's number.
-- Day 10957 is the first of 2000, and day 24855 is in 2038.
pub civil_from_days_lem :
    (n : ℕ)
    → n < 50000
    → let c = civil_from_days n in
      IsDate c
      × (1970 ≤ c.year)
      × (c.year ≤ 2106)
      × (10957 ≤ n → 2000 ≤ c.year)
      × (n < 24856 → c.year ≤ 2038)
      × (days_from_civil c.year c.month c.day ≡ n)
unfolding day_check
civil_from_days_lem n h = ground (arith, day_check-true n h)

month_at : (k i : ℕ) → k < 136 → i < 12 → agrees_at k i ≡ true
month_at k i hk hi =
    checks_lem (agrees_at k) 12 i hi
      (checks_lem (λ k. checks (agrees_at k) 12) 136 k hk month_table)

-- What the table says of the first day of a month.
abbrev MonthStart : ℕ → ℕ → Type 0
MonthStart y m =
    (days_from_civil y m 1 ≡ day_count (first_day y m))
    × (day_count (first_day y m) + days_in_month y m ≤ 49673)

first_of_month : (k i : ℕ) → agrees_at k i ≡ true → MonthStart (1970 + k) (suc i)
unfolding agrees_at
first_of_month k i h = ground arith

month_start : (y m : ℕ) → 1970 ≤ y → y ≤ 2105 → (1 ≤ m) × (m ≤ 12) → MonthStart y m
month_start y m lo hi hm = subst₂ MonthStart ey em (first_of_month (y - 1970) (m - 1) table)
  where
    ey : 1970 + (y - 1970) ≡ y
    ey = omega arith

    em : suc (m - 1) ≡ m
    em = omega arith

    table : agrees_at (y - 1970) (m - 1) ≡ true
    table = month_at (y - 1970) (m - 1) (omega arith) (omega arith)

-- The formula of `timeCivilToEpoch` numbers the days as the calendar does, from 1970 to 2105.
pub days_from_civil-day_count :
    (c : Civil)
    → IsDate c
    → 1970 ≤ c.year
    → c.year ≤ 2105
    → (days_from_civil c.year c.month c.day ≡ day_count c) × (day_count c < 49673)
unfolding day_count
days_from_civil-day_count c v lo hi = omega (
  arith,
  month_start c.year c.month lo hi v.month_in,
  days_from_civil-day c.year c.month c.day v.day_in.0,
  v.day_in,
)

-- The epoch of a civil time from 1970 to 2038-01-19 03:14:07 is its number of seconds since
-- 1970-01-01, whatever the product of the days is beyond that.
pub civil_to_epoch_lem :
    (overflow : ℕ → ℕ → ℕ) (c : Civil) (hh mm ss : ℕ)
    → IsDate c
    → 1970 ≤ c.year
    → c.year ≤ 2038
    → day_count c * 86400 + hh * 3600 + mm * 60 + ss < 2 ^ 31
    → civil_to_epoch overflow c.year c.month c.day hh mm ss
      ≡ day_count c * 86400 + hh * 3600 + mm * 60 + ss
unfolding civil_to_epoch
civil_to_epoch_lem overflow c hh mm ss v lo hi fits =
    let (number, few) = days_from_civil-day_count c v lo (omega (arith, hi)) in
    let within : (leb c.year 2038
          && fits_long (days_from_civil c.year c.month c.day) (hh * 3600 + mm * 60 + ss))
        ≡ true =
      ground (arith, number, few, fits, hi) in
    rw within (omega (arith, number, fits))
