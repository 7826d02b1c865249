-- ===== src/Process/Parts.antt =====
-- The parts of `process` (src/main.cpp), one after the other: each adds to the slot that the cycle
-- fills.
use vorsprung_logger.Base.{
  ℕ, ◌+◌, ◌-◌, ◌*◌, ◌%◌, Bool, true, false, not, ltb, leb, ◌==◌, if◌then◌else◌, List, [], ◌∷◌,
  Option, none, some, u32_mod,
}
use vorsprung_logger.Base.Int.{ℤ, pos, negsuc}
use vorsprung_logger.Buffer.{Buffer, add, element_int32, element_uint16}
use vorsprung_logger.Buffer.Elements.{word_bytes}
use vorsprung_logger.Slots.{Slots}
use vorsprung_logger.Time.Boot.{Boot}
use vorsprung_logger.Telemetry.Flags.{obd_ready, mems_ready, working, Flags, check, set, clear}
use vorsprung_logger.Uds.Decode.{FloatOps}
use vorsprung_logger.Uds.Did.{Cuds, apply_header_config, read_did}
use vorsprung_logger.Uds.Schedule.{Scheduler, process_uds}
use vorsprung_logger.Obd.{PidPollingInfo, Polling, process_obd}
use vorsprung_logger.Gnss.{GnssSource, watch}
use vorsprung_logger.Gnss.Position.{Position, process_gps}
use vorsprung_logger.Motion.{Motion, process_mems}
use vorsprung_logger.Spool.{World}
use vorsprung_logger.Process.Board.{Board, sensor, receiver, fixes, link, engine}

abbrev pub max_obd_errors : ℕ
max_obd_errors = 3

abbrev pub pid_battery_voltage : ℕ
pid_battery_voltage = 0x24

abbrev pub pid_csq : ℕ
pid_csq = 0x81

abbrev pub pid_device_temp : ℕ
pid_device_temp = 0x82

-- An int as its 32-bit pattern, and ten times an int.
abbrev pub word32 : ℤ → ℕ
word32 (pos n) = n % u32_mod
word32 (negsuc n) = u32_mod - 1 - n % u32_mod

abbrev pub ten_times : ℤ → ℤ
ten_times (pos n) = pos (n * 10)
ten_times (negsuc n) = negsuc (n * 10 + 9)

module _ (f : FloatOps) (board : Board f) where
  open f use {Float, cast, literal, times, over, is_nought, truncated16}
  open board use {
    Hw, millis, ticks, dev_type, analog_read, chip_temperature, obd_init, obd_errors, get_voltage,
  }

  -- A cycle that has begun: the clock in milliseconds and in microseconds at its begin.
  pub record Begun : Type 0 where
    pub start : ℕ
    pub tick : ℕ

  -- The globals of the main task, and the static variables of its functions. `rssi`, the 32-bit
  -- pattern of an int, is written by the other task. `pending` is
  -- the cycle whose `getFree` waits, with the slot that it waits for.
  pub record Logger : Type 0 where
    pub flags : Flags
    pub slots : Slots
    pub pending : Option (Begun × ℕ)
    pub cells : List PidPollingInfo
    pub idx : List ℕ
    pub rpm_valid : Bool
    pub timeouts_obd : ℕ
    pub attached : Bool
    pub last_nrc : ℕ
    pub scheduler : Scheduler
    pub motion : Motion f
    pub position : Position f
    pub source : GnssSource
    pub last_gps_tick : ℕ
    pub resets : ℕ
    pub rssi : ℕ
    pub rssi_last : ℕ
    pub battery_voltage : Float
    pub last_stats_time : ℕ
    pub data_interval : ℕ
    pub vin : List ℕ
    pub dtc : List ℕ
    pub boot : Boot
    pub devid : List ℕ
    pub apn : List ℕ
    pub has_mems : Bool
    pub world : World board.card
    pub hw : Hw

  abbrev pub polling : Buffer → (s : Logger) → Polling (engine f board s.flags)
  polling b s = record {
    cells = s.cells;
    idx = s.idx;
    rpm_valid = s.rpm_valid;
    timeouts_obd = s.timeouts_obd;
    last_motion_time = s.position.last_motion_time;
    buffer = b;
    bus = (s.hw, s.motion);
  }

  abbrev pub after_polling : (s : Logger) → Polling (engine f board s.flags) → Buffer × Logger
  after_polling s p = (
    p.buffer,
    record s {
      cells = p.cells;
      idx = p.idx;
      rpm_valid = p.rpm_valid;
      timeouts_obd = p.timeouts_obd;
      position = record (s.position) { last_motion_time = p.last_motion_time };
      motion = p.bus.1;
      hw = p.bus.0;
    },
  )

  -- `processOBD(buffer)`
  unfoldable pub poll_engine : Buffer → Logger → Buffer × Logger
  poll_engine b s = after_polling s (process_obd (engine f board s.flags) (polling b s)).1

  abbrev pub cuds : Logger → Cuds (link f board)
  cuds s = record { attached = s.attached; last_nrc = s.last_nrc; bus = s.hw }

  abbrev pub with_cuds : Cuds (link f board) → Logger → Logger
  with_cuds u s = record s { attached = u.attached; last_nrc = u.last_nrc; hw = u.bus }

  -- `uds.applyHeaderConfig()`
  abbrev pub apply_header : Logger → Logger
  apply_header s = with_cuds (apply_header_config (link f board) (cuds s)) s

  -- `processUDS(buffer)`
  unfoldable pub poll_units : Buffer → Logger → Buffer × Logger
  poll_units b s =
      let (scheduler', b', u) =
        process_uds f (Cuds (link f board)) (read_did (link f board)) s.scheduler b s.rpm_valid
          (cuds s) in
      (b', with_cuds u (record s { scheduler = scheduler' }))

  -- The engine, with the link begun anew behind too many errors. `false` ends the cycle.
  unfoldable pub ask_engine : Buffer → Logger → Bool × Buffer × Logger
  ask_engine b s =
      let (b₁, s₁) = poll_engine b s in
      let (again, hw') = obd_init false s₁.hw in
      let s₂ : Logger = record s₁ { hw = hw' } in
      let (b₃, s₃) = poll_units b₁ (apply_header s₂) in
      let (b₄, s₄) = poll_units b₁ s₁ in
      if not (leb max_obd_errors (obd_errors s₁.hw))
      then (true, b₄, s₄)
      else if again
      then (true, b₃, s₃)
      else (false, b₁, record s₂ { flags = clear (obd_ready ∷ working ∷ []) s₂.flags })

  -- The link without an engine is tried, quickly.
  unfoldable pub find_engine : Logger → Logger
  find_engine s =
      let (found, hw') = obd_init true s.hw in
      let s' : Logger = record s { hw = hw' } in
      if found then apply_header (record s' { flags = set (obd_ready ∷ []) s'.flags }) else s'

  unfoldable pub engine_part : Buffer → Logger → Bool × Buffer × Logger
  engine_part b s =
      if check (obd_ready ∷ []) s.flags then ask_engine b s else (true, b, find_engine s)

  unfoldable pub signal_part : Buffer → Logger → Buffer × Logger
  signal_part b s =
      if s.rssi == s.rssi_last
      then (b, s)
      else (add pid_csq element_int32 (word_bytes 4 s.rssi) 1 b, record s { rssi_last = s.rssi })

  -- The voltage of the battery, from the board or from the link.
  abbrev pub measured : Logger → Float × Hw
  measured s =
      let (raw, hw') = analog_read s.hw in
      if ltb 12 (dev_type s.hw)
      then (over (cast (pos (raw * 45))) (literal (pos 4095) 1), hw')
      else get_voltage s.hw

  unfoldable pub voltage_part : Buffer → Logger → Buffer × Logger
  voltage_part b s =
      let (v, hw') = measured s in
      let hundredths = truncated16 (times v (literal (pos 100) 1)) in
      (
        if is_nought v
            then b
            else add pid_battery_voltage element_uint16 (word_bytes 2 hundredths) 1 b,
        record s { battery_voltage = v; hw = hw' },
      )

  abbrev pub or_same : Buffer → Option Buffer → Buffer
  or_same b none = b
  or_same b (some b') = b'

  unfoldable pub motion_part : Buffer → Logger → Buffer × Logger
  motion_part b s =
      let (b', m, hw') = process_mems f (sensor f board) s.flags (some b) s.motion s.hw in
      (or_same b b', record s { motion = m; hw = hw' })

  unfoldable pub gnss_part : Buffer → Logger → Buffer × Logger
  gnss_part b s =
      let (success, b', p, hw') = process_gps f (fixes f board) s.flags (some b) s.position s.hw in
      let g = watch (receiver f board) success (record {
        source = s.source;
        last_gps_tick = s.last_gps_tick;
        resets = s.resets;
        flags = s.flags;
        sys = hw';
      }) in
      (
        or_same b b',
        record s {
          position = p;
          source = g.source;
          last_gps_tick = g.last_gps_tick;
          resets = g.resets;
          flags = g.flags;
          hw = g.sys;
        },
      )

  -- The temperature, in tenths of a degree.
  unfoldable pub temperature_part : Buffer → Logger → Buffer × Logger
  temperature_part b s =
      let (celsius, hw') = chip_temperature s.hw in
      let s' : Logger =
        if check (mems_ready ∷ []) s.flags
        then s
        else record s { motion = record (s.motion) { device_temp = celsius }; hw = hw' } in
      (
        add pid_device_temp element_int32 (word_bytes 4 (word32 (ten_times s'.motion.device_temp)))
            1 b,
        s',
      )
