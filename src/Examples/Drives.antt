-- ===== src/Examples/Drives.antt =====
-- A board whose drivers answer at once, and its first cycles, with whole numbers in place of floats.
use vorsprung_logger.Base.{
  ℕ, ◌+◌, ◌*◌, ◌/◌, ◌%◌, ◌^◌, ◌≡◌, ◌≢◌, refl, true, false, [], ◌∷◌, none, some, replicate,
  get_elem?,
}
use vorsprung_logger.Base.Int.{pos}
use vorsprung_logger.Buffer as Buf
use vorsprung_logger.Buffer.{Buffer, add}
use vorsprung_logger.Buffer.Room.{HasRoom}
use mathlib.Core.Logic.{inl, inr}
use vorsprung_logger.Slots as Slo
use vorsprung_logger.Slots.{Slots, got, get_free}
use vorsprung_logger.Time.Anchor.{unset}
use vorsprung_logger.Gnss.{gnss_src_none, init_gps}
use vorsprung_logger.Gnss.Position.{GpsData, Position, process_gps, take_fix}
use vorsprung_logger.Gnss.Filter.{quiet_calls, process_gps-near}
use vorsprung_logger.Process.Board.{Board, fixes}
use vorsprung_logger.Process.Parts.{Logger}
use vorsprung_logger.Process.Cycle.{opened, cycle_of, turn_of, process}
use vorsprung_logger.Process.Task.{
  loop, set_up, begin_flash, setup, initialize, begin_link, begin_mems, begin_gnss, begin_engine,
  begin_storage, identify, load_config,
}
use vorsprung_logger.Process.Startup.{IsBoot}
use vorsprung_logger.Process.Whole.{collected, finished, IsReady}
use vorsprung_logger.Process.Runs.{Reached, booted, looped, Reached-IsReady, cycle-HasRoom}
use vorsprung_logger.Examples.Diagnostics.{whole_numbers, at_boot, blank_slot}
use vorsprung_logger.Spool
use vorsprung_logger.Examples.Memory.{memory_card}
use vorsprung_logger.Examples.Engine.{cells_at_boot, boot-IsPolling}
use vorsprung_logger.Examples.Sensors.{all_on, sample_at, at_rest}

-- A fix for each second, at one place.
abbrev fix_at : ℕ → GpsData whole_numbers
fix_at hw = record {
  date = 150724;
  time = hw / 1000;
  lat = 48;
  lng = 11;
  alt = 500;
  speed = 20;
  heading = 90;
  hdop = 9;
  sat = 7;
}

-- What the drivers keep is the time.
abbrev pub prompt : Board whole_numbers
prompt = record {
  Hw = ℕ;
  millis = λ hw. hw % 2 ^ 32;
  ticks = λ hw. hw * 1000;
  delay = λ ms hw. hw + ms;
  buzzer = λ frequency hw. hw;
  dev_type = λ hw. 13;
  analog_read = λ hw. (1120, hw);
  chip_temperature = λ hw. (pos 40, hw);
  gps_begin_ext = λ hw. (true, hw);
  gps_begin = λ hw. (true, hw);
  gps_end = λ cut hw. hw;
  gps_get_data = λ hw. (true, fix_at hw, hw + 1);
  read = λ hw. (some (sample_at hw), hw + 1);
  read_acc = λ hw. (some (sample_at hw).acc, hw + 1);
  obd_init = λ quick hw. (true, hw + 10);
  obd_errors = λ hw. 0;
  get_voltage = λ hw. (12, hw);
  is_valid_pid = λ pid hw. true;
  read_pid = λ idle pid bus. (some 60, idle bus);
  set_header_mask = λ mask hw. hw;
  set_header_filter = λ filter hw. hw;
  set_can_id = λ id hw. hw;
  send_can_message = λ bytes hw. (none, hw + 20);
  get_vin = λ hw. (none, hw);
  read_dtc = λ dtc hw. (dtc, hw);
  obd_begin = λ hw. hw;
  enter_low_power_mode = λ hw. hw;
  nvs_flash_init = λ hw. (0, hw);
  nvs_flash_erase = λ hw. (0, hw);
  nvs_open = λ hw. (0, hw);
  nvs_get_apn = λ hw. [];
  err_nvs_no_free_pages = 0x110D;
  err_nvs_new_version_found = 0x1110;
  random = λ hw. hw;
  efuse_mac = λ hw. 0xA1B2C3D4E5F6;
  blocks = λ hw. replicate 256 0 ∷ replicate 256 0 ∷ [];
  sys_begin = λ hw. (true, hw);
  icm_42627_begin = λ hw. (true, hw);
  icm_20948_begin = λ hw. (false, hw);
  mems_end = λ hw. hw;
  reset_link = λ hw. hw;
  restart = λ hw. hw;
  card = memory_card;
}

abbrev nowhere : Position whole_numbers
nowhere = record {
  gd = none;
  last_gps_time = 0;
  last_gps_lat = 0;
  last_gps_lng = 0;
  iso_time = [];
  last_motion_time = 0;
  anchor = unset;
}

-- Two fixes, a second apart, and a call between them that finds the first one again.
process_gps-near_example :
    ((fix_at 7500).time ≢ (fix_at 8500).time)
    × (whole_numbers.far (whole_numbers.minus 48 48) ≡ false)
    × (whole_numbers.far (whole_numbers.minus 11 11) ≡ false)
unfolding process_gps take_fix quiet_calls
process_gps-near_example =
    process_gps-near whole_numbers (fixes whole_numbers prompt) all_on none none nowhere 7500 8500
      ((none, 7700) ∷ []) refl refl (inr (inl refl), tt) refl

-- The globals at boot.
abbrev fresh : Logger whole_numbers prompt
fresh = record {
  flags = λ f. false;
  slots = record { slots = []; last = none };
  pending = none;
  cells = cells_at_boot;
  idx = 7 ∷ 0 ∷ 0 ∷ [];
  rpm_valid = false;
  timeouts_obd = 0;
  attached = false;
  last_nrc = 0;
  scheduler = at_boot;
  motion = at_rest;
  position = nowhere;
  source = gnss_src_none;
  last_gps_tick = 0;
  resets = 0;
  rssi = 0;
  rssi_last = 0;
  battery_voltage = 0;
  last_stats_time = 0;
  data_interval = 1000;
  vin = [];
  dtc = replicate 6 0;
  boot = record { boot_seq = 0; boot_id = 0 };
  devid = [];
  apn = [];
  has_mems = false;
  world = record { spool = Spool.fresh; fs = record { listed = []; bytes = λ p. none } };
  hw = 0;
}

fresh-IsBoot : IsBoot whole_numbers prompt fresh
fresh-IsBoot = record { table = boot-IsPolling.table; idx = boot-IsPolling.idx; unnamed = refl }

-- The state behind `setup`, with 1001 rounds for each of its waits.
abbrev ready : Logger whole_numbers prompt
ready = set_up whole_numbers prompt 1001 (record fresh { hw = 500 })

setup_ready : setup whole_numbers prompt 1001 fresh ≡ some ready
unfolding setup begin_flash
setup_ready = refl

ready-Reached : Reached whole_numbers prompt 1001 ready
ready-Reached = booted fresh ready fresh-IsBoot setup_ready

-- Behind the first round.
Reached-IsReady_example : IsReady whole_numbers prompt (loop whole_numbers prompt 1001 ready)
Reached-IsReady_example =
    Reached-IsReady whole_numbers prompt 1001 (loop whole_numbers prompt 1001 ready)
      (looped ready ready-Reached)

abbrev two_blank : Slots
two_blank = record { slots = blank_slot ∷ blank_slot ∷ []; last = none }

first_slot : turn_of whole_numbers prompt ready.pending ready ≡ got 0 two_blank
unfolding set_up initialize begin_link begin_mems begin_gnss begin_engine begin_storage identify
    load_config Slo.init Slo.purge Buf.purge get_free Slo.take_free Slo.wait_free Slo.choose
    init_gps Spool.init
first_slot = refl

cycle-HasRoom_example :
    let s : Logger whole_numbers prompt = record ready { slots = two_blank; pending = none } in
    let tick = (cycle_of whole_numbers prompt ready.pending ready).tick in
    HasRoom 190 65
      (opened whole_numbers prompt tick blank_slot)
      (collected whole_numbers prompt tick blank_slot s).1
    × (get_elem? (process whole_numbers prompt 1001 ready).slots.slots 0
        ≡ some (finished whole_numbers prompt tick blank_slot s))
cycle-HasRoom_example =
    cycle-HasRoom whole_numbers prompt 1001 0 two_blank blank_slot ready ready-Reached first_slot
      refl
