-- ===== src/Motion.antt =====
-- The motion sensor of src/main.cpp: `processMEMS`, `calibrateMEMS` and `waitMotion`. The driver
-- behind `mems` is a parameter, as are the clock and the arithmetic of floats.
pub mod Mean
pub mod Calibration
use vorsprung_logger.Base.{
  ℕ, zero, suc, ◌+◌, ◌-◌, ◌*◌, ◌%◌, ◌^◌, Bool, true, false, not, ltb, leb, ◌==◌, ◌&&◌, ◌||◌,
  if◌then◌else◌, List, [], ◌∷◌, ◌++◌, Option, none, some, sub32, u8_mod,
}
use vorsprung_logger.Base.Int.{ℤ, pos, negsuc, ltb_ℤ}
use vorsprung_logger.Buffer.{Buffer, add, element_float_d2}
use vorsprung_logger.Buffer.Elements.{words_bytes}
use vorsprung_logger.Telemetry.Flags.{mems_ready, standby, Flags, check}
use vorsprung_logger.Uds.Decode.{FloatOps}

abbrev pub pid_acc : ℕ
pid_acc = 0x20

module _ (f : FloatOps) where
  open f use {Float, cast, literal, minus, times, over, at_most, bits, plus, truncated}

  pub record Vector : Type 0 where
    pub x : Float
    pub y : Float
    pub z : Float

  abbrev pub each : (Float → Float → Float) → Vector → Vector → Vector
  each op v w = record { x = op v.x w.x; y = op v.y w.y; z = op v.z w.z }

  -- Each component divided by a whole number.
  abbrev pub over_count : Vector → ℕ → Vector
  over_count v n = record {
    x = over v.x (cast (pos n));
    y = over v.y (cast (pos n));
    z = over v.z (cast (pos n));
  }

  abbrev pub nought : Vector
  nought = record { x = literal (pos 0) 1; y = literal (pos 0) 1; z = literal (pos 0) 1 }

  pub record Sample : Type 0 where
    pub acc : Vector
    pub gyr : Vector
    pub mag : Vector
    pub temp : Float

  -- `read` with all four results, and of the acceleration alone.
  pub record Sensor : Type 1 where
    pub Hw : Type 0
    pub read : Hw → Option Sample × Hw
    pub read_acc : Hw → Option Vector × Hw
    pub delay : ℕ → Hw → Hw
    pub millis : Hw → ℕ

  -- The globals.
  pub record Motion : Type 0 where
    pub acc_bias : Vector
    pub acc_sum : Vector
    pub acc : Vector
    pub gyr : Vector
    pub mag : Vector
    pub acc_count : ℕ
    pub device_temp : ℤ

  -- A sample joins the sum.
  abbrev pub gather : Sample → Motion → Motion
  gather s m = record m {
    acc = s.acc;
    gyr = s.gyr;
    mag = s.mag;
    device_temp = truncated s.temp;
    acc_sum = each plus m.acc_sum s.acc;
    acc_count = (m.acc_count + 1) % u8_mod;
  }

  -- The mean without the bias, as an element of three floats.
  abbrev pub mean : Motion → Vector
  mean m = each minus (over_count m.acc_sum m.acc_count) m.acc_bias

  abbrev pub add_vector : Vector → Buffer → Buffer
  add_vector v b =
      add pid_acc element_float_d2 (words_bytes 4 (bits v.x ∷ bits v.y ∷ bits v.z ∷ [])) 3 b

  -- The part for a slot: the mean is added, and the sum begun anew.
  abbrev pub pack_mean : Option Buffer → Motion → Option Buffer × Motion
  pack_mean none m = (none, m)
  pack_mean (some b) m = (
    some (if m.acc_count == 0 then b else add_vector (mean m) b),
    record m { acc_sum = nought; acc_count = 0 },
  )

  abbrev pub take_sample : Option Sample → Option Buffer → Motion → Option Buffer × Motion
  take_sample none b m = (b, m)
  take_sample (some s) b m = pack_mean b (gather s m)

  module _ (sensor : Sensor) where
    open sensor use {Hw, read, read_acc, delay, millis}

    unfoldable pub process_mems : Flags → Option Buffer → Motion → Hw → Option Buffer × Motion × Hw
    process_mems flags b m hw =
        let (sample, hw') = read hw in
        let (b', m') = take_sample sample b m in
        if check (mems_ready ∷ []) flags then (b', m', hw') else (b, m, hw)

    -- A round of the loop of `calibrateMEMS`: a reading joins the bias, or is passed over.
    abbrev pub join_bias : Option Vector → Vector → Hw → Vector × Hw
    join_bias none bias hw = (bias, hw)
    join_bias (some v) bias hw = (each plus bias v, delay 10 hw)

    -- The loop, since the time `t`, at most `fuel` rounds: whether it came to its end, the sum, its
    -- rounds and what it leaves.
    unfoldable pub sum_bias : ℕ → ℕ → ℕ → Vector → Hw → Bool × Vector × ℕ × Hw
    sum_bias zero t n bias hw = (false, bias, n, hw)
    sum_bias (suc fuel) t n bias hw =
        let (v, hw₁) = read_acc hw in
        let (bias', hw₂) = join_bias v bias hw₁ in
        let rest = sum_bias fuel t (n + 1) bias' hw₂ in
        if not (ltb (sub32 (millis hw) t) 1000) then (true, bias, n, hw) else rest

    unfoldable pub calibrate_mems : ℕ → Flags → Motion → Hw → Bool × Motion × Hw
    calibrate_mems fuel flags m hw =
        let (ended, bias, n, hw') = sum_bias fuel (millis hw) 0 nought hw in
        if check (mems_ready ∷ []) flags
        then (ended, record m { acc_bias = over_count bias n }, hw')
        else (true, m, hw)

    -- `motion >= MOTION_THRESHOLD * MOTION_THRESHOLD`, of the squared length.
    abbrev pub threshold : Float
    threshold = times (literal (pos 4) 10) (literal (pos 4) 10)

    abbrev pub squared : Vector → Float
    squared v =
        plus (plus (plus (literal (pos 0) 1) (times v.x v.x)) (times v.y v.y)) (times v.z v.z)

    abbrev pub join_sum : Vector → Motion → Motion
    join_sum v m =
        let m' : Motion =
          if m.acc_count == 10 then record m { acc_count = 0; acc_sum = nought } else m in
        record m' { acc_sum = each plus m'.acc_sum v; acc_count = (m'.acc_count + 1) % u8_mod }

    -- One round of `waitMotion`: whether the car moves, and the sums.
    abbrev pub look : Option Vector → Motion → Bool × Motion
    look none m = (false, m)
    look (some v) m = (at_most threshold (squared (each minus v m.acc_bias)), join_sum v m)

    -- The test of the loop: `timeout` is -1 for a wait without an end.
    abbrev pub waits_on : Flags → ℤ → ℕ → Bool
    waits_on flags timeout elapsed =
        let signed : ℤ =
          if ltb elapsed (2 ^ 31) then pos elapsed else negsuc (2 ^ 32 - elapsed - 1) in
        let forever : Bool = elim timeout [ pos n ↦ false | negsuc n ↦ n == 0 ] in
        check (standby ∷ []) flags && (ltb_ℤ signed timeout || forever)

    -- The loop, at most `fuel` rounds; `none` if it still waits. `serverProcess` only waits.
    unfoldable pub wait_rounds : ℕ → Flags → ℤ → ℕ → Motion → Hw → Option Bool × Motion × Hw
    wait_rounds zero flags timeout t m hw = (none, m, hw)
    wait_rounds (suc fuel) flags timeout t m hw =
        let (v, hw') = read_acc hw in
        let (moves, m') = look v m in
        let rest = wait_rounds fuel flags timeout t m' hw' in
        if moves
        then (some true, m', hw')
        else if waits_on flags timeout (sub32 (millis hw') t)
        then rest
        else (some false, m', hw')

    unfoldable pub wait_motion : ℕ → Flags → ℤ → Motion → Hw → Option Bool × Motion × Hw
    wait_motion fuel flags timeout m hw =
        let moved = wait_rounds fuel flags timeout (millis hw) m hw in
        let ms : ℕ = elim timeout [ pos n ↦ n | negsuc n ↦ 2 ^ 32 - n - 1 ] in
        if check (mems_ready ∷ []) flags then moved else (some false, m, delay ms hw)
