-- ===== src/Process/Board.antt =====
-- The drivers that the main task of src/main.cpp calls, in one record, and the views of it that its
-- parts take. `idleTasks` of the class `OBD` is a call of `processMEMS`, which the link makes while
-- it reads a value.
use vorsprung_logger.Base.{ℕ, Bool, List, Option, none}
use vorsprung_logger.Base.Int.{ℤ}
use vorsprung_logger.Telemetry.Flags.{Flags}
use vorsprung_logger.Uds.Decode.{FloatOps}
use vorsprung_logger.Uds.Did.{Link}
use vorsprung_logger.Obd.{Engine}
use vorsprung_logger.Gnss.{Receiver}
use vorsprung_logger.Gnss.Position.{GpsData, Fixes}
use vorsprung_logger.Spool.Media.{Card}
use vorsprung_logger.Motion.{Vector, Sample, Sensor, Motion, process_mems}

module _ (f : FloatOps) where
  pub record Board : Type 1 where
    pub Hw : Type 0
    -- `sys` and the chip
    pub millis : Hw → ℕ
    pub ticks : Hw → ℕ
    pub delay : ℕ → Hw → Hw
    pub buzzer : ℕ → Hw → Hw
    pub dev_type : Hw → ℕ
    pub analog_read : Hw → ℕ × Hw
    pub chip_temperature : Hw → ℤ × Hw
    pub gps_begin_ext : Hw → Bool × Hw
    pub gps_begin : Hw → Bool × Hw
    pub gps_end : Bool → Hw → Hw
    pub gps_get_data : Hw → Bool × GpsData f × Hw
    -- `mems`
    pub read : Hw → Option (Sample f) × Hw
    pub read_acc : Hw → Option (Vector f) × Hw
    -- `obd`: `init` is told whether to be quick, and `readPID` is given what to do while it waits.
    pub obd_init : Bool → Hw → Bool × Hw
    pub obd_errors : Hw → ℕ
    pub get_voltage : Hw → f.Float × Hw
    pub is_valid_pid : ℕ → Hw → Bool
    pub read_pid : (Hw × Motion f → Hw × Motion f) → ℕ → Hw × Motion f → Option ℕ × (Hw × Motion f)
    pub set_header_mask : ℕ → Hw → Hw
    pub set_header_filter : ℕ → Hw → Hw
    pub set_can_id : ℕ → Hw → Hw
    pub send_can_message : List ℕ → Hw → Option (List ℕ) × Hw
    -- `getVIN` gives the text that it has put into its buffer.
    pub get_vin : Hw → Option (List ℕ) × Hw
    -- `readDTC` is given the array that it fills.
    pub read_dtc : List ℕ → Hw → List ℕ × Hw
    pub obd_begin : Hw → Hw
    pub enter_low_power_mode : Hw → Hw
    -- The flash: `nvs_get_str` of the access point's name, and the two errors that erase it.
    pub nvs_flash_init : Hw → ℕ × Hw
    pub nvs_flash_erase : Hw → ℕ × Hw
    pub nvs_open : Hw → ℕ × Hw
    pub nvs_get_apn : Hw → List ℕ
    pub err_nvs_no_free_pages : ℕ
    pub err_nvs_new_version_found : ℕ
    -- What only `setup` and `standby` call.
    pub random : Hw → ℕ
    pub efuse_mac : Hw → ℕ
    pub blocks : Hw → List (List ℕ)
    pub sys_begin : Hw → Bool × Hw
    pub icm_42627_begin : Hw → Bool × Hw
    pub icm_20948_begin : Hw → Bool × Hw
    pub mems_end : Hw → Hw
    pub reset_link : Hw → Hw
    pub restart : Hw → Hw
    -- The card that `spool` works on.
    pub card : Card

  module _ (board : Board) where
    open board use {
      Hw, millis, ticks, delay, buzzer, gps_begin_ext, gps_begin, gps_end, gps_get_data, read,
      read_acc, is_valid_pid, read_pid, set_header_mask, set_header_filter, set_can_id,
      send_can_message,
    }

    abbrev pub sensor : Sensor f
    sensor = record { Hw = Hw; read = read; read_acc = read_acc; delay = delay; millis = millis }

    abbrev pub receiver : Receiver
    receiver = record {
      Sys = Hw;
      gps_begin_ext = gps_begin_ext;
      gps_begin = gps_begin;
      gps_end = gps_end;
      buzzer = buzzer;
      delay = delay;
      millis = millis;
    }

    abbrev pub fixes : Fixes f
    fixes = record {
      Hw = Hw;
      gps_get_data = gps_get_data;
      delay = delay;
      millis = millis;
      ticks = ticks;
    }

    abbrev pub link : Link
    link = record {
      Bus = Hw;
      set_header_mask = set_header_mask;
      set_header_filter = set_header_filter;
      set_can_id = set_can_id;
      send_can_message = send_can_message;
    }

    -- `OBD::idleTasks`
    unfoldable pub idle_tasks : Flags → Hw × Motion f → Hw × Motion f
    idle_tasks flags (hw, m) = let (b, m', hw') = process_mems f sensor flags none m hw in (hw', m')

    abbrev pub engine : Flags → Engine
    engine flags = record {
      Bus = Hw × Motion f;
      is_valid_pid = λ pid bus. is_valid_pid pid bus.0;
      read_pid = λ pid bus. read_pid (idle_tasks flags) pid bus;
      millis = λ bus. millis bus.0;
    }
