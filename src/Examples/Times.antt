-- ===== src/Examples/Times.antt =====
-- Time: tests, and the theorems at concrete dates and readings.
use vorsprung_logger.Base.{ℕ, ◌<◌, ◌^◌, ◌+◌, ◌*◌, ◌≤◌, ◌≡◌, refl, [], ◌∷◌, some, All, arith}
use vorsprung_logger.Base.Int.{◌+ℤ◌}
use vorsprung_logger.Time.Civil.{
  days_from_civil, civil_to_epoch, Civil, civil_from_days, gps_date, gps_time, epoch_to_gps,
  gps_to_epoch,
}
use vorsprung_logger.Time.Calendar.{
  IsDate, days_of_years, days_of_months, day_count, civil_to_epoch_lem,
}
use vorsprung_logger.Time.Wire.{gps_to_epoch-epoch_to_gps}
use vorsprung_logger.Time.Inverse.{epoch_to_gps-civil_to_epoch}
use vorsprung_logger.Time.Anchor.{
  Anchor, unset, Reading, anchor_set, delta_sec, anchor_resolve, time_src_modem, time_src_server,
  time_src_gps,
}
use vorsprung_logger.Time.Session.{
  offer_all, clock_settings, first_plausible, IsReading, offer_all-rank, clock_settings_once,
}
use vorsprung_logger.Time.Resolve.{Holds, anchor_resolve-Holds, anchor_resolve_total}

-- 2026-09-05
abbrev drive : Civil
drive = record { year = 2026; month = 9; day = 5 }

drive-IsDate : IsDate drive
drive-IsDate = omega arith

-- A device that keeps the low 32 bits.
abbrev wraps : ℕ → ℕ → ℕ
wraps days sod = days * 86400 + sod

drive_epoch : civil_to_epoch wraps 2026 9 5 6 12 29 ≡ 1788588749
unfolding civil_to_epoch days_from_civil
drive_epoch = refl

drive_fields : epoch_to_gps 1788588749 ≡ record { date = 50926; time = 6122900 }
unfolding epoch_to_gps gps_date gps_time civil_from_days
drive_fields = refl

drive_day : day_count drive ≡ 20701
unfolding day_count days_of_years days_of_months
drive_day = refl

drive_fits : day_count drive * 86400 + 6 * 3600 + 12 * 60 + 29 < 2 ^ 31
drive_fits = omega (arith, drive_day)

civil_to_epoch_lem_example :
    civil_to_epoch wraps 2026 9 5 6 12 29 ≡ day_count drive * 86400 + 6 * 3600 + 12 * 60 + 29
civil_to_epoch_lem_example =
    civil_to_epoch_lem wraps drive 6 12 29 drive-IsDate (omega arith) (omega arith) drive_fits

epoch_to_gps-civil_to_epoch_example :
    epoch_to_gps (civil_to_epoch wraps 2026 9 5 6 12 29) ≡ record { date = 50926; time = 6122900 }
epoch_to_gps-civil_to_epoch_example =
    epoch_to_gps-civil_to_epoch wraps drive 6 12 29 drive-IsDate (omega arith) (omega arith)
      (omega arith) (omega arith) (omega arith) drive_fits

gps_to_epoch-epoch_to_gps_example : gps_to_epoch wraps (epoch_to_gps 1788588749) ≡ 1788588749
gps_to_epoch-epoch_to_gps_example =
    gps_to_epoch-epoch_to_gps wraps 1788588749 (omega arith) (omega arith)

-- The modem's clock, then GNSS a second later.
abbrev network : Reading
network = record { source = time_src_modem; utc_sec = 1788588000; tick_us = 9000000 }

abbrev fix : Reading
fix = record { source = time_src_gps; utc_sec = 1788588001; tick_us = 10000000 }

abbrev late : Reading
late = record { source = time_src_server; utc_sec = 1788588003; tick_us = 11000000 }

abbrev pub by_network : Anchor
by_network = record { src = time_src_modem; utc = 1788588000; tick = 9000000 }

readings-IsReading : All IsReading (network ∷ fix ∷ late ∷ [])
readings-IsReading = omega arith

gnss_wins : (offer_all (network ∷ fix ∷ late ∷ []) unset).src ≡ 3
unfolding anchor_set
gnss_wins = refl

-- 1.5 s before the anchor.
before_the_anchor : anchor_resolve by_network 7500000 ≡ some 1788587998
unfolding anchor_resolve delta_sec ◌+ℤ◌
before_the_anchor = refl

offer_all-rank_example : 1 ≤ (offer_all (fix ∷ late ∷ []) by_network).src
offer_all-rank_example =
    offer_all-rank (fix ∷ late ∷ []) by_network 9000000 (omega arith) (omega arith) (omega arith)
      (omega arith)

clock_settings_once_example :
    clock_settings (network ∷ fix ∷ late ∷ []) unset ≡ first_plausible (network ∷ fix ∷ late ∷ [])
clock_settings_once_example = clock_settings_once (network ∷ fix ∷ late ∷ []) readings-IsReading

anchor_resolve-Holds_example : Holds by_network 7500000 1788587998 × (1735689600 ≤ 1788587998)
anchor_resolve-Holds_example =
    anchor_resolve-Holds by_network 7500000 (omega arith) (omega arith) (omega arith) (omega arith)
      1788587998 before_the_anchor

anchor_resolve_total_example : anchor_resolve by_network 7500000 ≡ some 1788587998
anchor_resolve_total_example =
    anchor_resolve_total by_network 7500000 (omega arith) (omega arith) (omega arith) (omega arith)
      1788587998 (omega arith) (omega arith)
