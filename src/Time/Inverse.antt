-- ===== src/Time/Inverse.antt =====
-- `timeEpochToGps` finds again the civil time that `timeCivilToEpoch` was given.
use vorsprung_logger.Base.{
  ℕ, suc, ◌+◌, ◌-◌, ◌*◌, ◌/◌, ◌%◌, ◌^◌, ◌≤◌, ◌<◌, ◌≡◌, refl, ap, sym, ◌∙◌, Bool, true, ◌&&◌, ◌||◌,
  ltb, ◌==◌, arith,
}
use mathlib.Core.Path.{subst}
use native.Mathlib.Decide.{dec_lt}
use vorsprung_logger.Base.Check.{checks, checks_lem}
use vorsprung_logger.Time.Civil.{
  days_from_civil, civil_to_epoch, Civil, civil_from_days, gps_date, gps_time, epoch_to_gps,
}
use vorsprung_logger.Time.Calendar.{
  IsDate, day_count, days_in_month, days_from_civil-day_count, civil_to_epoch_lem,
}
use vorsprung_logger.Time.Wire.{days_in_month-le}

abbrev date : ℕ → ℕ → ℕ → Civil
date y m d = record { year = y; month = m; day = d }

abbrev same : Civil → Civil → Bool
same a b = a.year == b.year && a.month == b.month && a.day == b.day

same→eq : (a b : Civil) → same a b ≡ true → a ≡ b
same→eq a b h = ground arith

-- Year 1970 + k, month i + 1, day j + 1.
returns_at : ℕ → ℕ → ℕ → Bool
returns_at k i j =
    let c = date (1970 + k) (suc i) (suc j) in
    ltb (days_in_month (1970 + k) (suc i)) (suc j)
    || same (civil_from_days (days_from_civil c.year c.month c.day)) c

abbrev in_year : ℕ → Bool
in_year k = checks (λ i. checks (returns_at k i) 31) 12

date_table_low : checks (λ k. in_year k) 68 ≡ true
unfolding checks returns_at civil_from_days days_from_civil
date_table_low = refl

date_table_high : checks (λ k. in_year (68 + k)) 68 ≡ true
unfolding checks returns_at civil_from_days days_from_civil
date_table_high = refl

in_year-true : (k : ℕ) → k < 136 → in_year k ≡ true
in_year-true k h = elim (dec_lt k 68) [
  | yes p ↦ checks_lem (λ k. in_year k) 68 k p date_table_low
  | no p ↦
      ap (λ k. in_year k) (sym (e p))
      ∙ checks_lem (λ k. in_year (68 + k)) 68 (k - 68) (omega arith) date_table_high
]
  where
    e : ¬ (k < 68) → 68 + (k - 68) ≡ k
    e p = omega arith

returns_at-true : (k i j : ℕ) → k < 136 → i < 12 → j < 31 → returns_at k i j ≡ true
returns_at-true k i j hk hi hj =
    checks_lem (returns_at k i) 31 j hj
      (checks_lem (λ i. checks (returns_at k i) 31) 12 i hi (in_year-true k hk))

abbrev Returns : ℕ → ℕ → ℕ → Type 0
Returns y m d = civil_from_days (days_from_civil y m d) ≡ date y m d

comes_back :
    (k i j : ℕ)
    → suc j ≤ days_in_month (1970 + k) (suc i)
    → returns_at k i j ≡ true
    → Returns (1970 + k) (suc i) (suc j)
unfolding returns_at
comes_back k i j h t =
    let c = date (1970 + k) (suc i) (suc j) in
    same→eq (civil_from_days (days_from_civil c.year c.month c.day)) c (ground arith)

-- From 1970 to 2105 the two conversions are inverse: a date is found again from its day number.
pub civil_from_days-days_from_civil :
    (c : Civil)
    → IsDate c
    → 1970 ≤ c.year
    → c.year ≤ 2105
    → civil_from_days (days_from_civil c.year c.month c.day) ≡ c
civil_from_days-days_from_civil c v lo hi =
    at_suc (year - 1970) (month - 1) (day - 1) c (omega arith) (omega (arith, v.month_in))
      (omega (arith, v.day_in)) v (omega arith) (omega (arith, v.month_in))
      (omega (arith, v.day_in, days_in_month-le year month))
  where
    open c use {year, month, day}

    at_suc :
        (k i j : ℕ) (c : Civil)
        → 1970 + k ≡ c.year
        → suc i ≡ c.month
        → suc j ≡ c.day
        → IsDate c
        → k < 136
        → i < 12
        → j < 31
        → civil_from_days (days_from_civil c.year c.month c.day) ≡ c
    at_suc k i j c ey em ed v hk hi hj =
        let e : date (1970 + k) (suc i) (suc j) ≡ c = ground arith in
        subst (λ c. civil_from_days (days_from_civil c.year c.month c.day) ≡ c) e
          (comes_back k i j (rw (ey, em, ed) v.day_in.1) (returns_at-true k i j hk hi hj))

-- The wire fields of a civil time from 1970 to 2038-01-19 03:14:07 name that time: DDMMYY, and HHMMSS
-- with no hundredths, whatever the product of the days is beyond that.
pub epoch_to_gps-civil_to_epoch :
    (overflow : ℕ → ℕ → ℕ) (c : Civil) (hh mm ss : ℕ)
    → IsDate c
    → 1970 ≤ c.year
    → c.year ≤ 2038
    → hh < 24
    → mm < 60
    → ss < 60
    → day_count c * 86400 + hh * 3600 + mm * 60 + ss < 2 ^ 31
    → epoch_to_gps (civil_to_epoch overflow c.year c.month c.day hh mm ss) ≡ record {
      date = c.day * 10000 + c.month * 100 + c.year % 100;
      time = hh * 1000000 + mm * 10000 + ss * 100;
    }
unfolding epoch_to_gps gps_date gps_time
epoch_to_gps-civil_to_epoch overflow c hh mm ss v lo hi h m s fits =
    rw (day_is, second_is, civil_from_days-days_from_civil c v lo (omega (arith, hi)))
      (ground arith)
  where
    epoch : ℕ
    epoch = civil_to_epoch overflow c.year c.month c.day hh mm ss

    day_is : epoch / 86400 ≡ days_from_civil c.year c.month c.day
    day_is = omega (
      arith,
      civil_to_epoch_lem overflow c hh mm ss v lo hi fits,
      days_from_civil-day_count c v lo (omega (arith, hi)),
    )

    second_is : epoch % 86400 ≡ hh * 3600 + mm * 60 + ss
    second_is = omega (arith, civil_to_epoch_lem overflow c hh mm ss v lo hi fits)
