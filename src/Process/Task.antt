-- ===== src/Process/Task.antt =====
-- The life of the main task of src/main.cpp: `setup`, then `loop` again and again, with `initialize`
-- and `standby`. What only prints, and the LED, are left out. `ESP.restart` is a step of the board.
use vorsprung_logger.Base.{
  ℕ, true, false, not, ◌==◌, ◌||◌, if◌then◌else◌, List, [], ◌∷◌, Option, none, some, take, get_or,
}
use vorsprung_logger.Base.Int.{negsuc}
use vorsprung_logger.Slots.{purge, init}
use vorsprung_logger.Telemetry.Flags.{
  storage_ready, obd_ready, gps_ready, mems_ready, working, standby, check, set, clear,
}
use vorsprung_logger.Uds.Decode.{FloatOps}
use vorsprung_logger.Uds.Did.{begin}
use vorsprung_logger.Identity.{vin_is_valid, gen_device_id}
use vorsprung_logger.Time.Boot.{anchor_init}
use vorsprung_logger.Gnss.{init_gps}
use vorsprung_logger.Motion.{calibrate_mems, wait_motion}
use vorsprung_logger.Process.Board.{Board, sensor, receiver, link}
use vorsprung_logger.Process.Parts.{Logger, cuds, with_cuds, apply_header}
use vorsprung_logger.Spool
use vorsprung_logger.Process.Cycle.{process}

-- The length of a VIN: `sizeof(vin) - 1`.
abbrev pub vin_length : ℕ
vin_length = 17

abbrev pub cell_apn : List ℕ
cell_apn = b'h' ∷ b'o' ∷ b'l' ∷ b'o' ∷ b'g' ∷ b'r' ∷ b'a' ∷ b'm' ∷ []

module _ (f : FloatOps) (board : Board f) where
  open board use {
    Hw, millis, delay, obd_init, get_vin, read_dtc, obd_begin, enter_low_power_mode, nvs_flash_init,
    nvs_flash_erase, nvs_open, nvs_get_apn, err_nvs_no_free_pages, err_nvs_new_version_found,
    random, efuse_mac, blocks, sys_begin, icm_42627_begin, icm_20948_begin, mems_end, reset_link,
    restart, card,
  }

  -- `calibrateMEMS()`, its loop of at most `fuel` rounds.
  abbrev pub calibrate : ℕ → Logger f board → Logger f board
  calibrate fuel s =
      let (ended, m, hw') = calibrate_mems f (sensor f board) fuel s.flags s.motion s.hw in
      record s { motion = m; hw = hw' }

  unfoldable pub begin_gnss : Logger f board → Logger f board
  begin_gnss s =
      let (found, g) = init_gps (receiver f board) (record {
        source = s.source;
        last_gps_tick = s.last_gps_tick;
        resets = s.resets;
        flags = s.flags;
        sys = s.hw;
      }) in
      if check (gps_ready ∷ []) s.flags then s else record s {
        source = g.source;
        flags = if found then set (gps_ready ∷ []) s.flags else s.flags;
        hw = g.sys;
      }

  unfoldable pub begin_engine : Logger f board → Logger f board
  begin_engine s =
      let (found, hw') = obd_init false s.hw in
      let s' : Logger f board = record s { timeouts_obd = 0; hw = hw' } in
      if check (obd_ready ∷ []) s.flags
      then s
      else if found
      then apply_header f board (record s' { flags = set (obd_ready ∷ []) s'.flags })
      else s'

  unfoldable pub begin_storage : Logger f board → Logger f board
  begin_storage s =
      let (found, world') = Spool.init card s.world in
      if check (storage_ready ∷ []) s.flags then s else record s {
        flags = if found then set (storage_ready ∷ []) s.flags else s.flags;
        world = world';
      }

  -- A VIN that is read is kept if it is one.
  abbrev pub keep_vin : Option (List ℕ) → Logger f board → Logger f board
  keep_vin none s = s
  keep_vin (some buf) s = if vin_is_valid buf then record s { vin = take vin_length buf } else s

  unfoldable pub identify : Logger f board → Logger f board
  identify s =
      let (buf, hw₁) = get_vin s.hw in
      let (dtc', hw₂) = read_dtc s.dtc hw₁ in
      if check (obd_ready ∷ []) s.flags then record (keep_vin buf s) { dtc = dtc'; hw = hw₂ } else s

  unfoldable pub initialize : ℕ → Logger f board → Logger f board
  initialize fuel s =
      let s₁ : Logger f board = record s { slots = purge s.slots } in
      let s₂ = if check (mems_ready ∷ []) s₁.flags then calibrate fuel s₁ else s₁ in
      let s₃ = identify (begin_storage (begin_engine (begin_gnss s₂))) in
      record s₃ {
        position = record (s₃.position) { last_motion_time = millis s₃.hw };
        flags = set (working ∷ []) s₃.flags;
      }

  -- `standby()`, with the wait for motion of at most `fuel` rounds.
  unfoldable pub stand_by : ℕ → Logger f board → Logger f board
  stand_by fuel s =
      let s₁ : Logger f board = record s {
        flags = clear (working ∷ obd_ready ∷ storage_ready ∷ []) (set (standby ∷ []) s.flags);
        hw = enter_low_power_mode s.hw;
      } in
      let s₂ = calibrate fuel s₁ in
      let (moved, m, hw') =
        wait_motion f (sensor f board) fuel s₂.flags (negsuc 0) s₂.motion s₂.hw in
      let woken = reset_link hw' in
      record s₂ {
        motion = m;
        hw = restart (if s₂.has_mems then mems_end woken else woken);
        flags = clear (standby ∷ []) s₂.flags;
      }

  -- A cycle that waits in `getFree` goes on.
  unfoldable pub loop : ℕ → Logger f board → Logger f board
  loop fuel s =
      let rested = initialize fuel (stand_by fuel s) in
      let next = process f board fuel s in
      if elim s.pending [ none ↦ not (check (working ∷ []) s.flags) | some c ↦ false ]
      then rested
      else next

  -- `loadConfig()`
  unfoldable pub load_config : Logger f board → Logger f board
  load_config s =
      let stored = nvs_get_apn s.hw in
      record s { apn = if get_or stored 0 0 == 0 then cell_apn else stored }

  -- The flash is begun, and erased first if it has to be. `none` if that fails, which ends the program.
  unfoldable pub begin_flash : Hw → Option Hw
  begin_flash hw =
      let (err, hw₁) = nvs_flash_init hw in
      let (wiped, hw₂) = nvs_flash_erase hw₁ in
      let (err', hw₃) = nvs_flash_init hw₂ in
      if err == err_nvs_no_free_pages || err == err_nvs_new_version_found
      then (if wiped == 0 then (if err' == 0 then some hw₃ else none) else none)
      else if err == 0
      then some hw₁
      else none

  unfoldable pub begin_link : Logger f board → Logger f board
  begin_link s =
      let (found, hw') = sys_begin s.hw in
      let s' : Logger f board = record s { hw = hw' } in
      let s'' : Logger f board = record s' { hw = obd_begin s'.hw } in
      if found then with_cuds f board (begin (link f board) (cuds f board s'')) s'' else s'

  -- One sensor is tried behind the other.
  unfoldable pub begin_mems : Logger f board → Logger f board
  begin_mems s =
      let (first, hw₁) = icm_42627_begin s.hw in
      let (second, hw₂) = icm_20948_begin hw₁ in
      let found : Hw → Logger f board =
        λ hw. record s { flags = set (mems_ready ∷ []) s.flags; has_mems = true; hw = hw } in
      if check (mems_ready ∷ []) s.flags
      then s
      else if first
      then found hw₁
      else if second
      then found hw₂
      else record s { has_mems = false; hw = hw₂ }

  -- `setup` behind the start of the flash, up to the start of the other task.
  unfoldable pub set_up : ℕ → Logger f board → Logger f board
  set_up fuel s =
      let (err, hw') = nvs_open s.hw in
      let s₁ : Logger f board = record s { hw = hw' } in
      let s₂ = if err == 0 then load_config s₁ else s₁ in
      let s₃ : Logger f board = record s₂ {
        devid = gen_device_id (efuse_mac s₂.hw);
        boot = anchor_init (random s₂.hw) s₂.boot;
        slots = init (blocks s₂.hw);
        pending = none;
      } in
      let s₄ = begin_mems (begin_link s₃) in
      initialize fuel (record s₄ { flags = set (working ∷ []) s₄.flags })

  abbrev pub with_flash : ℕ → Logger f board → Option Hw → Option (Logger f board)
  with_flash fuel s none = none
  with_flash fuel s (some hw') = some (set_up fuel (record s { hw = hw' }))

  unfoldable pub setup : ℕ → Logger f board → Option (Logger f board)
  setup fuel s = with_flash fuel s (begin_flash (delay 500 s.hw))
