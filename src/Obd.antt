-- ===== src/Obd.antt =====
-- `processOBD` of src/main.cpp: the live values of the engine, in three tiers. The first tier is read
-- in each cycle; of the two slower ones at most one value is. The link is a parameter: which values
-- the car offers, the reading of one, and the clock.
pub mod Tiers
pub mod Kept
pub mod Bounds
use vorsprung_logger.Base.{
  ℕ, zero, suc, ◌+◌, ◌-◌, ◌*◌, ◌%◌, ◌^◌, Bool, true, false, not, ltb, leb, ◌==◌, ◌&&◌, ◌||◌,
  if◌then◌else◌, List, [], ◌∷◌, Option, none, some, get_or, set, u8_mod, u32_mod,
}
use vorsprung_logger.Buffer.{Buffer, add, element_int32}
use vorsprung_logger.Buffer.Elements.{word_bytes}

abbrev pub pid_speed : ℕ
pid_speed = 0x0D

abbrev pub pid_rpm : ℕ
pid_rpm = 0x0C

-- A value is the 32-bit pattern of an int.
pub record PidPollingInfo : Type 0 where
  pub pid : ℕ
  pub tier : ℕ
  pub value : ℕ
  pub ts : ℕ

abbrev polled : ℕ → ℕ → PidPollingInfo
polled pid tier = record { pid = pid; tier = tier; value = 0; ts = 0 }

-- `obdData` at boot.
abbrev pub obd_data : List PidPollingInfo
obd_data =
    polled pid_speed 1
    ∷ polled pid_rpm 1
    ∷ polled 0x11 1
    ∷ polled 0x04 1
    ∷ polled 0x0A 2
    ∷ polled 0x0E 2
    ∷ polled 0x05 3
    ∷ polled 0x0F 3
    ∷ []

abbrev pub obd_count : ℕ
obd_count = 8

abbrev pub row : List PidPollingInfo → ℕ → PidPollingInfo
row cells i = get_or cells i (polled 0 0)

abbrev pub poll_fuel : ℕ
poll_fuel = 11

-- The calls of `COBD`, and `millis`.
pub record Engine : Type 1 where
  pub Bus : Type 0
  pub is_valid_pid : ℕ → Bus → Bool
  pub read_pid : ℕ → Bus → Option ℕ × Bus
  pub millis : Bus → ℕ

module _ (engine : Engine) where
  open engine use {Bus, is_valid_pid, read_pid, millis}

  -- The variables. `cells` is `obdData` with the memory behind it, read as rows of it; `idx` is the
  -- static array of that name with the cell in front of it, so that `idx[tier - 2]` is the cell
  -- `tier - 1`.
  pub record Polling : Type 0 where
    pub cells : List PidPollingInfo
    pub idx : List ℕ
    pub rpm_valid : Bool
    pub timeouts_obd : ℕ
    pub last_motion_time : ℕ
    pub buffer : Buffer
    pub bus : Bus

  -- The head of the loop's body: the row, the tier, and whether the row is polled now.
  pub record Place : Type 0 where
    pub index : ℕ
    pub tier : ℕ
    pub here : Bool
    pub state : Polling

  -- At the first row of a slower tier, its cursor is added to the index and moved on. Behind the
  -- tier's last row it goes back, and that row is looked at in the next round.
  unfoldable pub enter_tier : ℕ → ℕ → Polling → Place
  enter_tier i tier s =
      let next_tier = (row s.cells i).tier in
      let cleared = set s.idx (tier - 1) 0 in
      let step = get_or cleared (next_tier - 1) 0 in
      let moved = set cleared (next_tier - 1) (step + 1) in
      let i' = (i + step) % u8_mod in
      if not (ltb tier next_tier)
      then record { index = i; tier = tier; here = true; state = s }
      else if (row s.cells i').tier == next_tier
      then record { index = i'; tier = next_tier; here = true; state = record s { idx = moved } }
      else record {
        index = i';
        tier = next_tier;
        here = false;
        state = record s { idx = set moved (next_tier - 1) 0 };
      }

  abbrev keep_value : ℕ → ℕ → Polling → Polling
  keep_value i value s =
      let e = row s.cells i in
      record s {
        cells = set s.cells i (record e { value = value; ts = millis s.bus });
        buffer = add (e.pid + 0x100) element_int32 (word_bytes 4 value) 1 s.buffer;
        rpm_valid = if e.pid == pid_rpm then true else s.rpm_valid;
      }

  -- The answer to a read. `true` goes on with the next row.
  abbrev pub take_answer : ℕ → ℕ → Option ℕ → Polling → Bool × Polling
  take_answer i tier none s = (false, record s { timeouts_obd = (s.timeouts_obd + 1) % u32_mod })
  take_answer i tier (some value) s = (not (ltb 1 tier), keep_value i value s)

  -- The rest of the body.
  unfoldable pub poll : ℕ → ℕ → Polling → Bool × Polling
  poll i tier s =
      let pid = (row s.cells i).pid in
      let (answer, bus') = read_pid pid s.bus in
      if is_valid_pid pid s.bus
      then take_answer i tier answer (record s { bus = bus' })
      else (true, s)

  -- The loop, at most `fuel` rounds. The first component tells whether it came to its end.
  unfoldable pub poll_from : ℕ → ℕ → ℕ → Polling → Bool × Polling
  poll_from zero i tier s = (false, s)
  poll_from (suc fuel) i tier s =
      let place = enter_tier i tier s in
      let (on, s') = poll place.index place.tier place.state in
      let rest =
        poll_from fuel (if place.here then place.index + 1 else place.index) place.tier
          (if place.here then s' else place.state) in
      if not (ltb i obd_count) then (true, s) else if place.here && not on then (true, s') else rest

  -- `kph >= 2`, of a signed value.
  abbrev pub note_motion : Polling → Polling
  note_motion s =
      let kph = (row s.cells 0).value in
      if leb 2 kph && ltb kph (2 ^ 31) then record s { last_motion_time = millis s.bus } else s

  unfoldable pub process_obd : Polling → Bool × Polling
  process_obd s =
      let (ended, s') = poll_from poll_fuel 0 1 (record s { rpm_valid = false }) in
      (ended, note_motion s')
