-- ===== src/Examples/Sensors.antt =====
-- A sensor whose readings are its clock, with whole numbers in place of floats.
use vorsprung_logger.Base.{ℕ, ◌+◌, ◌%◌, ◌^◌, ◌≡◌, refl, true, [], ◌∷◌, some, arith}
use vorsprung_logger.Base.Int.{pos}
use vorsprung_logger.Telemetry.Flags.{Flags}
use vorsprung_logger.Motion.{Vector, nought, Sample, Sensor, Motion, process_mems, calibrate_mems}
use vorsprung_logger.Motion.Mean.{sums, idle_calls, Packs, unbiased, process_mems-mean}
use vorsprung_logger.Motion.Calibration.{IsClock, calibrate_mems-ends}
use vorsprung_logger.Examples.Diagnostics.{whole_numbers, blank_slot}

abbrev all_of : ℕ → Vector whole_numbers
all_of n = record { x = n; y = n; z = n }

abbrev pub sample_at : ℕ → Sample whole_numbers
sample_at n = record { acc = all_of n; gyr = all_of 0; mag = all_of 0; temp = 30 }

abbrev clockwork : Sensor whole_numbers
clockwork = record {
  Hw = ℕ;
  read = λ hw. (some (sample_at hw), hw + 2);
  read_acc = λ hw. (some (all_of hw), hw + 2);
  delay = λ ms hw. hw + ms;
  millis = λ hw. hw % 2 ^ 32;
}

abbrev pub at_rest : Motion whole_numbers
at_rest = record {
  acc_bias = all_of 1;
  acc_sum = all_of 0;
  acc = all_of 0;
  gyr = all_of 0;
  mag = all_of 0;
  acc_count = 0;
  device_temp = pos 0;
}

abbrev pub all_on : Flags
all_on f = true

-- Samples of 10, 12 and 14, with a bias of 1.
process_mems-mean_example :
    Packs whole_numbers clockwork blank_slot
      (unbiased whole_numbers clockwork
        (sums whole_numbers clockwork
          (nought whole_numbers)
          (sample_at 10 ∷ sample_at 12 ∷ sample_at 14 ∷ []))
        3
        (all_of 1))
      (process_mems whole_numbers clockwork all_on
        (some blank_slot)
        (idle_calls whole_numbers clockwork 2 all_on at_rest 10).0
        (idle_calls whole_numbers clockwork 2 all_on at_rest 10).1)
process_mems-mean_example =
    process_mems-mean whole_numbers clockwork all_on blank_slot (sample_at 10 ∷ sample_at 12 ∷ [])
      (sample_at 14) at_rest 10 refl refl refl (refl, (refl, (refl, tt))) (omega arith)

clockwork-IsClock : IsClock whole_numbers clockwork (λ hw. hw)
clockwork-IsClock = record {
  shown = λ hw. refl;
  answers = λ hw. (all_of hw, refl);
  reads = λ hw. omega arith;
  reads_soon = λ hw. omega arith;
  waits = λ ms hw. omega arith;
  waits_soon = λ ms hw. omega arith;
}

calibrate_mems-ends_example : (calibrate_mems whole_numbers clockwork 101 all_on at_rest 5).0 ≡ true
calibrate_mems-ends_example =
    calibrate_mems-ends whole_numbers clockwork (λ hw. hw) clockwork-IsClock all_on at_rest 5
