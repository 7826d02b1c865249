-- ===== src/Motion/Calibration.antt =====
-- The loop of `calibrateMEMS` (src/main.cpp) ends.
use vorsprung_logger.Base.{
  ℕ, zero, suc, ◌+◌, ◌-◌, ◌*◌, ◌^◌, ◌%◌, ◌≤◌, ◌<◌, ◌≡◌, refl, ap, ◌∙◌, inl, inr, true, ltb,
  Bool-cases, Option, none, some, arith, sub32, [], ◌∷◌,
}
use mathlib.Core.Option.{none-ne-some}
use vorsprung_logger.Telemetry.Flags.{mems_ready, Flags, check}
use vorsprung_logger.Uds.Decode.{FloatOps}
use vorsprung_logger.Motion.{Vector, nought, Sensor, Motion, join_bias, sum_bias, calibrate_mems}

-- The sensor answers each reading, as the driver of the ICM-42627 does, in less than a minute; the clock
-- does not go back, and a delay lasts its time, and less than a minute more.
pub record IsClock (f : FloatOps) (sensor : Sensor f) (now : sensor.Hw → ℕ) : Type 0 where
  pub shown : (hw : sensor.Hw) → sensor.millis hw ≡ now hw % 2 ^ 32
  pub answers : (hw : sensor.Hw) → (v : Vector f) × ((sensor.read_acc hw).0 ≡ some v)
  pub reads : (hw : sensor.Hw) → now hw ≤ now (sensor.read_acc hw).1
  pub reads_soon : (hw : sensor.Hw) → now (sensor.read_acc hw).1 ≤ now hw + 60000
  pub waits : (ms : ℕ) (hw : sensor.Hw) → now hw + ms ≤ now (sensor.delay ms hw)
  pub waits_soon : (ms : ℕ) (hw : sensor.Hw) → now (sensor.delay ms hw) ≤ now hw + ms + 60000

module _ (f : FloatOps) (sensor : Sensor f) (now : sensor.Hw → ℕ)
    (clock : IsClock f sensor now) where
  open sensor use {Hw, read_acc, delay, millis}

  join_bias-later :
      (o : Option (Vector f)) (v bias : Vector f) (hw : Hw)
      → o ≡ some v
      → (now hw + 10 ≤ now (join_bias f sensor o bias hw).1)
        × (now (join_bias f sensor o bias hw).1 ≤ now hw + 60010)
  join_bias-later none v bias hw e = absurd (none-ne-some v e)
  join_bias-later (some w) v bias hw e = omega (arith, clock.waits 10 hw, clock.waits_soon 10 hw)

  elapsed_is : (t n : ℕ) → t ≤ n → n ≤ t + 200000 → sub32 (n % 2 ^ 32) (t % 2 ^ 32) ≡ n - t
  elapsed_is t n after soon = omega arith

  sum_bias-ended :
      (fuel t n : ℕ) (bias : Vector f) (hw : Hw)
      → t ≤ now hw
      → now hw ≤ t + 200000
      → 10 + (t + 1000 - now hw) ≤ 10 * fuel
      → (sum_bias f sensor fuel (t % 2 ^ 32) n bias hw).0 ≡ true
  unfolding sum_bias
  sum_bias-ended zero t n bias hw after soon enough = absurd (omega arith)
  sum_bias-ended (suc fuel) t n bias hw after soon enough =
      let elapsed : sub32 (millis hw) (t % 2 ^ 32) ≡ now hw - t =
        ap (λ m. sub32 m (t % 2 ^ 32)) (clock.shown hw) ∙ elapsed_is t (now hw) after soon in
      let (v, hw₁) = read_acc hw in
      let next = join_bias f sensor v bias hw₁ in
      let answer = clock.answers hw in
      let moved = join_bias-later v answer.0 bias hw₁ answer.1 in
      elim (Bool-cases (ltb (sub32 (millis hw) (t % 2 ^ 32)) 1000)) [
        | inr over ↦ rw over refl
        | inl more ↦
            let early : now hw - t < 1000 = ground (arith, elapsed) in
            rw more (
              sum_bias-ended fuel t (n + 1) next.0 next.1 (omega (arith, moved, clock.reads hw))
                (omega (arith, moved, clock.reads_soon hw)) (omega (arith, moved, clock.reads hw)))
      ]

  -- With a sensor that answers each reading, the calibration ends within 101 rounds, since each of
  -- them waits for ten milliseconds of the second. A reading takes less than a minute, the clock does
  -- not go back, and a delay lasts its time and less than a minute more.
  pub calibrate_mems-ends :
      (flags : Flags) (m : Motion f) (hw : Hw) → (calibrate_mems f sensor 101 flags m hw).0 ≡ true
  unfolding calibrate_mems
  calibrate_mems-ends flags m hw = elim (Bool-cases (check (mems_ready ∷ []) flags)) [
    | inr off ↦ rw off refl
    | inl ready ↦ rw ready (
        ap (λ t. (sum_bias f sensor 101 t 0 (nought f) hw).0) (clock.shown hw)
        ∙ sum_bias-ended 101 (now hw) 0 (nought f) hw (omega arith) (omega arith) (omega arith))
  ]
