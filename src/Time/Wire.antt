-- ===== src/Time/Wire.antt =====
-- The GPS wire fields that `timeEpochToGps` writes, and what `processGPS` reads from them.
use vorsprung_logger.Base.{ℕ, ◌+◌, ◌*◌, ◌/◌, ◌%◌, ◌^◌, true, leb, ◌&&◌, ◌≤◌, ◌<◌, ◌≡◌, arith}
use vorsprung_logger.Time.Civil.{
  fits_long, civil_to_epoch, Civil, civil_from_days, gps_date, gps_time, epoch_to_gps, gps_to_epoch,
}
use vorsprung_logger.Time.Calendar.{IsDate, days_in_month, civil_from_days_lem}

pub days_in_month-le : (y m : ℕ) → days_in_month y m ≤ 31
days_in_month-le y m = ground arith

-- The three parts of a date, read back from DDMMYY. The century is not on the wire.
gps_date_parts :
    (c : Civil)
    → IsDate c
    → 2000 ≤ c.year
    → c.year ≤ 2099
    → (2000 + gps_date c % 100 ≡ c.year)
      × (gps_date c / 100 % 100 ≡ c.month)
      × (gps_date c / 10000 ≡ c.day)
unfolding gps_date
gps_date_parts c v lo hi = omega (arith, days_in_month-le c.year c.month, v.day_in, v.month_in)

-- The seconds of a day, read back from HHMMSScc.
gps_time_parts :
    (sod : ℕ)
    → sod < 86400
    → gps_time sod / 1000000 * 3600
        + gps_time sod % 1000000 / 10000 * 60
        + gps_time sod % 10000 / 100
      ≡ sod
unfolding gps_time
gps_time_parts sod h = omega arith

-- From 2000 to 2038-01-19 03:14:07, `processGPS` reads from the fields of `timeEpochToGps` the epoch
-- that they were made of, whatever the product of the days is beyond that.
pub gps_to_epoch-epoch_to_gps :
    (overflow : ℕ → ℕ → ℕ) (utc : ℕ)
    → 946684800 ≤ utc
    → utc < 2 ^ 31
    → gps_to_epoch overflow (epoch_to_gps utc) ≡ utc
unfolding gps_to_epoch epoch_to_gps civil_to_epoch
gps_to_epoch-epoch_to_gps overflow utc lo hi =
    let day = utc / 86400 in
    let c = civil_from_days day in
    let (v, _, _, after, before, number) = civil_from_days_lem day (omega arith) in
    let early = before (omega arith) in
    let (year, month, d) = gps_date_parts c v (after (omega arith)) (omega (arith, early)) in
    let g = gps_time (utc % 86400) in
    let sod : g / 1000000 * 3600 + g % 1000000 / 10000 * 60 + g % 10000 / 100 ≡ utc % 86400 =
      gps_time_parts (utc % 86400) (omega arith) in
    let within : (leb c.year 2038 && fits_long day (utc % 86400)) ≡ true =
      ground (arith, early, hi) in
    rw (year, month, d, number, sod, within) (omega arith)
