-- ===== src/Process/Cycle.antt =====
-- `process` of src/main.cpp: one cycle of the main task. The other task works on other slots
-- meanwhile; what it changes of the globals is a change of the state between two cycles.
use vorsprung_logger.Base.{
  ℕ, zero, suc, ◌/◌, ◌%◌, ◌^◌, Bool, true, false, ltb, leb, ◌==◌, ◌||◌, if◌then◌else◌, List, [],
  ◌∷◌, Option, none, some, get_elem?, sub32, u32_mod,
}
use vorsprung_logger.Buffer.{filling, filled, Buffer}
use vorsprung_logger.Slots.{Turn, got, waits, modify, wait_free, get_free}
use vorsprung_logger.Telemetry.Flags.{working, clear}
use vorsprung_logger.Uds.Decode.{FloatOps}
use vorsprung_logger.Process.Board.{Board}
use vorsprung_logger.Process.Parts.{
  Begun, Logger, engine_part, signal_part, voltage_part, motion_part, gnss_part, temperature_part,
}

-- The seconds without motion up to which an interval in milliseconds is taken.
abbrev pub stationary_time_table : List (ℕ × ℕ)
stationary_time_table = (10, 1000) ∷ (60, 2000) ∷ (180, 5000) ∷ []

-- The loop over the two tables: the interval, and whether the car is stationary.
unfoldable pub choose_interval : ℕ → ℕ → List (ℕ × ℕ) → ℕ × Bool
choose_interval motionless interval [] = (interval, true)
choose_interval motionless interval ((seconds, ms) ∷ rows) =
    let rest = choose_interval motionless ms rows in
    if ltb motionless seconds || seconds == 0 then (ms, false) else rest

module _ (f : FloatOps) (board : Board f) where
  open board use {Hw, millis, ticks, delay}

  -- The values that a cycle collects. `false` if the engine's control unit is off, which ends the
  -- cycle.
  unfoldable pub collect_values : Buffer → Logger f board → Bool × Buffer × Logger f board
  collect_values b s =
      let (on, b₁, s₁) = engine_part f board b s in
      let (b₂, s₂) = signal_part f board b₁ s₁ in
      let (b₃, s₃) = voltage_part f board b₂ s₂ in
      let (b₄, s₄) = motion_part f board b₃ s₃ in
      let (b₅, s₅) = gnss_part f board b₄ s₄ in
      let (b₆, s₆) = temperature_part f board b₅ s₅ in
      if on then (true, b₆, s₆) else (false, b₁, s₁)

  -- The slot as `getFree` gave it, marked, with the tick of the capture.
  abbrev pub opened : ℕ → Buffer → Buffer
  opened tick b = record b { state = filling; tick = tick }

  -- The slot when the record is complete.
  abbrev pub completed : ℕ → Buffer → Buffer
  completed tick b = record b { state = filled; timestamp = tick / 1000 % u32_mod }

  abbrev pub put_slot : ℕ → Buffer → Logger f board → Logger f board
  put_slot i b s = record s {
    slots = record (s.slots) { slots = modify i (λ old. b) s.slots.slots };
  }

  -- `printStats` is called every three seconds; it only prints.
  abbrev pub note_stats : ℕ → Logger f board → Logger f board
  note_stats start s =
      if leb 3000 (sub32 start s.last_stats_time) then record s { last_stats_time = start } else s

  -- The interval to the next cycle. `false` if the car has stood still for long.
  unfoldable pub take_interval : Logger f board → Bool × Logger f board
  take_interval s =
      let motionless = sub32 (millis s.hw) s.position.last_motion_time / 1000 in
      let (ms, stationary) = choose_interval motionless s.data_interval stationary_time_table in
      if stationary
      then (false, record s { data_interval = ms; flags = clear (working ∷ []) s.flags })
      else (true, record s { data_interval = ms })

  -- The wait for the rest of the interval, at most `fuel` rounds, and whether it came to its end.
  -- `t` is a signed difference: it is positive below 2 ^ 31.
  unfoldable pub wait_interval : ℕ → ℕ → ℕ → Hw → Bool × Hw
  wait_interval zero start ms hw = (false, hw)
  wait_interval (suc fuel) start ms hw =
      let t = sub32 ms (sub32 (millis hw) start) in
      let hw' = delay (if ltb t (2 ^ 31) then t else 0) hw in
      let rest = wait_interval fuel start ms hw' in
      if ltb (sub32 (millis hw') start) ms then rest else (true, hw')

  -- The end of a cycle, behind the last value.
  abbrev pub rest_of_cycle : ℕ → ℕ → Logger f board → Logger f board
  rest_of_cycle fuel start s =
      let (going, s') = take_interval (note_stats start s) in
      if going then record s' { hw = (wait_interval fuel start s'.data_interval s'.hw).1 } else s'

  -- A cycle with the slot `i`.
  unfoldable pub fill_slot : ℕ → ℕ → Begun f board → Buffer → Logger f board → Logger f board
  fill_slot fuel i c b s =
      let (on, b', s') = collect_values (opened c.tick b) s in
      if on
      then rest_of_cycle fuel c.start (put_slot i (completed c.tick b') s')
      else put_slot i b' s'

  -- `getFree` waits for a millisecond while its slot is locked, and then looks again.
  abbrev pub with_slot : ℕ → Begun f board → Turn → Logger f board → Logger f board
  with_slot fuel c (waits i m) s = record s { slots = m; pending = some (c, i); hw = delay 1 s.hw }
  with_slot fuel c (got i m) s = elim (get_elem? m.slots i) [
    | none ↦ s
    | some b ↦ fill_slot fuel i c b (record s { slots = m; pending = none })
  ]

  -- The cycle that is under way, or else one that begins now, and what its `getFree` gives.
  abbrev pub cycle_of : Option (Begun f board × ℕ) → Logger f board → Begun f board
  cycle_of none s = record { start = millis s.hw; tick = ticks s.hw }
  cycle_of (some (c, i)) s = c

  abbrev pub turn_of : Option (Begun f board × ℕ) → Logger f board → Turn
  turn_of none s = get_free s.slots
  turn_of (some (c, i)) s = wait_free i s.slots

  -- `process`, up to its end or to the next look of `getFree`.
  unfoldable pub process : ℕ → Logger f board → Logger f board
  process fuel s = with_slot fuel (cycle_of s.pending s) (turn_of s.pending s) s
