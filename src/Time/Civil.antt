-- ===== src/Time/Civil.antt =====
-- `timeCivilToEpoch` and `timeEpochToGps` of src/timeanchor.cpp, and the call in `processGPS`
-- (src/main.cpp) that reads the GPS wire fields back. `int` and `long` have 32 bits on the device. The
-- civil arguments are not negative, as in every call. The product of the days by 86400 is signed: the
-- source leaves open what it is beyond 2 ^ 31, from 2038-01-19 03:14:08 on and before 1901, so that
-- there the epoch is a parameter, `overflow` of the days and of the seconds of the day.
use vorsprung_logger.Base.{
  ℕ, ◌+◌, ◌-◌, ◌*◌, ◌/◌, ◌%◌, ◌^◌, Bool, ◌&&◌, ltb, leb, ◌==◌, if◌then◌else◌, u32_mod,
}

-- The era and the year of the era, for a year that is not negative.
abbrev pub split_era : ℕ → ℕ × ℕ
split_era y = (y / 400, y - y / 400 * 400)

-- `y -= (m <= 2)` and the era of the result. Year -1 is in era -1, here as a 32-bit word.
unfoldable pub era_of : ℕ → Bool → ℕ × ℕ
era_of y early =
    if early then (if y == 0 then (u32_mod - 1, 399) else split_era (y - 1)) else split_era y

-- The `days` of `timeCivilToEpoch`, as a 32-bit word.
unfoldable pub days_from_civil : ℕ → ℕ → ℕ → ℕ
unfolding era_of
days_from_civil y m d =
    let (era, yoe) = era_of y (leb m 2) in
    let mp : ℕ = if ltb 2 m then m - 3 else m + 9 in
    let doy = ((153 * mp + 2) / 5 + d + u32_mod - 1) % u32_mod in
    let doe = (yoe * 365 + yoe / 4 - yoe / 100 + doy) % u32_mod in
    (era * 146097 + doe + u32_mod - 719468) % u32_mod

-- Whether `days * 86400L` and the sum with the seconds of the day stay in the signed range, for the
-- days as a 32-bit word of a long.
abbrev pub fits_long : ℕ → ℕ → Bool
fits_long days sod =
    if ltb days (2 ^ 31)
    then ltb (days * 86400 + sod) (2 ^ 31)
    else leb ((u32_mod - days) * 86400) (2 ^ 31) && ltb sod (2 ^ 31)

-- From the year 2039 on the product is beyond the range in any case.
unfoldable pub civil_to_epoch : (ℕ → ℕ → ℕ) → ℕ → ℕ → ℕ → ℕ → ℕ → ℕ → ℕ
civil_to_epoch overflow y m d hh mm ss =
    let days = days_from_civil y m d in
    let sod = hh * 3600 + mm * 60 + ss in
    if leb y 2038 && fits_long days sod
    then (days * 86400 + sod) % u32_mod
    else overflow days sod % u32_mod

pub record Civil : Type 0 where
  pub year : ℕ
  pub month : ℕ
  pub day : ℕ

-- The calendar part of `timeEpochToGps`, from the number of the day. `z` is never negative.
unfoldable pub civil_from_days : ℕ → Civil
civil_from_days n =
    let z = n + 719468 in
    let era = z / 146097 in
    let doe = z - era * 146097 in
    let yoe = (doe - doe / 1460 + doe / 36524 - doe / 146096) / 365 in
    let doy = doe - (365 * yoe + yoe / 4 - yoe / 100) in
    let mp = (5 * doy + 2) / 153 in
    let m : ℕ = if ltb mp 10 then mp + 3 else mp - 9 in
    let y = yoe + era * 400 in
    record { year = if leb m 2 then y + 1 else y; month = m; day = doy - (153 * mp + 2) / 5 + 1 }

-- The two GPS wire fields: DDMMYY and HHMMSScc.
pub record GpsFields : Type 0 where
  pub date : ℕ
  pub time : ℕ

unfoldable pub gps_date : Civil → ℕ
gps_date c = c.day * 10000 + c.month * 100 + (c.year % 100 + 100) % 100

unfoldable pub gps_time : ℕ → ℕ
gps_time sod = sod / 3600 * 1000000 + sod % 3600 / 60 * 10000 + sod % 60 * 100

unfoldable pub epoch_to_gps : ℕ → GpsFields
epoch_to_gps utc = record {
  date = gps_date (civil_from_days (utc / 86400));
  time = gps_time (utc % 86400);
}

-- The reading that `processGPS` makes of a receiver's date and time.
unfoldable pub gps_to_epoch : (ℕ → ℕ → ℕ) → GpsFields → ℕ
gps_to_epoch overflow g =
    civil_to_epoch overflow (2000 + g.date % 100) (g.date / 100 % 100) (g.date / 10000)
      (g.time / 1000000) (g.time % 1000000 / 10000) (g.time % 10000 / 100)
