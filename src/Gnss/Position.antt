-- ===== src/Gnss/Position.antt =====
-- `processGPS` and `waitMotionGPS` of src/main.cpp: a fix of the receiver goes to the anchor and into
-- the slot. `gpsGetData` is a parameter, with the clocks and the arithmetic of floats.
use vorsprung_logger.Base.{
  ℕ, zero, suc, ◌+◌, ◌-◌, ◌/◌, ◌%◌, Bool, true, false, not, ltb, ◌==◌, ◌&&◌, ◌||◌, if◌then◌else◌,
  List, [], ◌∷◌, ◌++◌, length, replicate, Option, none, some, sub32,
}
use vorsprung_logger.Base.Int.{pos}
use vorsprung_logger.Text.Number.{decimal}
use vorsprung_logger.Time.Civil.{gps_to_epoch}
use vorsprung_logger.Time.Anchor.{time_src_gps, Anchor, anchor_set}
use vorsprung_logger.Buffer.{
  Buffer, add, element_uint8, element_uint16, element_float, element_float_d1,
}
use vorsprung_logger.Buffer.Elements.{word_bytes}
use vorsprung_logger.Telemetry.Flags.{gps_ready, Flags, check}
use vorsprung_logger.Uds.Decode.{FloatOps}

abbrev pub pid_gps_latitude : ℕ
pid_gps_latitude = 0xA

abbrev pub pid_gps_longitude : ℕ
pid_gps_longitude = 0xB

abbrev pub pid_gps_altitude : ℕ
pid_gps_altitude = 0xC

abbrev pub pid_gps_speed : ℕ
pid_gps_speed = 0xD

abbrev pub pid_gps_heading : ℕ
pid_gps_heading = 0xE

abbrev pub pid_gps_sat_count : ℕ
pid_gps_sat_count = 0xF

abbrev pub pid_gps_hdop : ℕ
pid_gps_hdop = 0x12

-- `%0*u`
abbrev padded : ℕ → ℕ → List ℕ
padded width n = replicate (width - length (decimal n)) b'0' ++ decimal n

-- `isoTime`, up to its NUL.
unfoldable pub iso_text : ℕ → ℕ → List ℕ
iso_text date time =
    let tenth = time % 100 / 10 in
    padded 4 (date % 100 + 2000)
    ++ (b'-' ∷ padded 2 (date / 100 % 100))
    ++ (b'-' ∷ padded 2 (date / 10000))
    ++ (b'T' ∷ padded 2 (time / 1000000))
    ++ (b':' ∷ padded 2 (time % 1000000 / 10000))
    ++ (b':' ∷ padded 2 (time % 10000 / 100))
    ++ (if tenth == 0 then [] else b'.' ∷ (b'0' + tenth) ∷ b'0' ∷ b'0' ∷ [])
    ++ (b'Z' ∷ [])

module _ (f : FloatOps) where
  open f use {Float, literal, minus, times, at_most, bits, is_nought, far, overflow}

  -- `GPS_DATA`, as far as it is read.
  pub record GpsData : Type 0 where
    pub date : ℕ
    pub time : ℕ
    pub lat : Float
    pub lng : Float
    pub alt : Float
    pub speed : Float
    pub heading : ℕ
    pub hdop : ℕ
    pub sat : ℕ

  -- `gpsGetData` points `gd` to its data in any case, and tells whether they are new.
  pub record Fixes : Type 1 where
    pub Hw : Type 0
    pub gps_get_data : Hw → Bool × GpsData × Hw
    pub delay : ℕ → Hw → Hw
    pub millis : Hw → ℕ
    pub ticks : Hw → ℕ

  -- `gd`, the static variables of `processGPS`, and the globals that it writes.
  pub record Position : Type 0 where
    pub gd : Option GpsData
    pub last_gps_time : ℕ
    pub last_gps_lat : Float
    pub last_gps_lng : Float
    pub iso_time : List ℕ
    pub last_motion_time : ℕ
    pub anchor : Anchor

  abbrev forget : Position → Position
  forget s = record s { last_gps_lat = literal (pos 0) 1; last_gps_lng = literal (pos 0) 1 }

  -- Before the first data, the static variables are set back.
  abbrev pub begin_fix : Position → Position
  begin_fix s = elim s.gd [ some d ↦ s | none ↦ record (forget s) { last_gps_time = 0 } ]

  -- A dated fix goes to the anchor, whether or not it has a position.
  abbrev pub take_date : GpsData → ℕ → Position → Position
  take_date d tick s = if d.date == 0 then s else record s {
    iso_time = iso_text d.date d.time;
    anchor =
        (anchor_set
          (record {
            source = time_src_gps;
            utc_sec = gps_to_epoch overflow (record { date = d.date; time = d.time });
            tick_us = tick;
          })
          s.anchor).anchor;
  }

  abbrev pub no_position : GpsData → Bool
  no_position d = is_nought d.lng && is_nought d.lat

  -- The position is too far from the last one, if there is a last one.
  abbrev pub jumps : GpsData → Position → Bool
  jumps d s =
      not (is_nought s.last_gps_lat && is_nought s.last_gps_lng)
      && (far (minus d.lat s.last_gps_lat) || far (minus d.lng s.last_gps_lng))

  abbrev pub kph_of : GpsData → Float
  kph_of d = times d.speed (literal (pos 1852) 1000)

  unfoldable pub add_fix : GpsData → Buffer → Buffer
  add_fix d b =
      let b₁ = add pid_gps_latitude element_float (word_bytes 4 (bits d.lat)) 1 b in
      let b₂ = add pid_gps_longitude element_float (word_bytes 4 (bits d.lng)) 1 b₁ in
      let b₃ = add pid_gps_altitude element_float_d1 (word_bytes 4 (bits d.alt)) 1 b₂ in
      let b₄ = add pid_gps_speed element_float_d1 (word_bytes 4 (bits (kph_of d))) 1 b₃ in
      let b₅ = add pid_gps_heading element_uint16 (word_bytes 2 d.heading) 1 b₄ in
      let b₆ : Buffer =
        if d.sat == 0 then b₅ else add pid_gps_sat_count element_uint8 (word_bytes 1 d.sat) 1 b₅ in
      if d.hdop == 0 then b₆ else add pid_gps_hdop element_uint8 (word_bytes 1 d.hdop) 1 b₆

  abbrev pub add_to : GpsData → Option Buffer → Option Buffer
  add_to d none = none
  add_to d (some b) = some (add_fix d b)

  -- A fix that is accepted.
  abbrev pub accept : GpsData → ℕ → Position → Position
  accept d now s = record s {
    last_gps_lat = d.lat;
    last_gps_lng = d.lng;
    last_gps_time = d.time;
    last_motion_time = if at_most (literal (pos 2) 1) (kph_of d) then now else s.last_motion_time;
  }

  -- From the test of the time on, with the readings of the two clocks.
  unfoldable pub take_fix :
      GpsData → Option Buffer → ℕ → ℕ → Position → Bool × Option Buffer × Position
  take_fix d b now tick s =
      let s' = take_date d tick s in
      if s.last_gps_time == d.time
      then (false, b, s)
      else if no_position d
      then (false, b, s')
      else if jumps d s'
      then (false, b, forget s')
      else (true, add_to d b, accept d now s')

  abbrev pub take_data :
      Option GpsData → Option Buffer → ℕ → ℕ → Position → Bool × Option Buffer × Position
  take_data none b now tick s = (false, b, s)
  take_data (some d) b now tick s = take_fix d b now tick s

  module _ (fixes : Fixes) where
    open fixes use {Hw, gps_get_data, delay, millis, ticks}

    unfoldable pub process_gps :
        Flags → Option Buffer → Position → Hw → Bool × Option Buffer × Position × Hw
    process_gps flags b s hw =
        let s = begin_fix s in
        let (fresh, d, hw') = gps_get_data hw in
        let s' : Position = record s { gd = some d } in
        let (done, b', t) = take_data (some d) b (millis hw') (ticks hw') s' in
        let (old_done, old_b, old_t) = take_data s.gd b (millis hw) (ticks hw) s in
        if not (check (gps_ready ∷ []) flags)
        then (old_done, old_b, old_t, hw)
        else if not fresh
        then (false, b, s', hw')
        else (done, b', t, hw')

    -- The loop of `waitMotionGPS`, since the time `since`, at most `fuel` rounds; `none` if it still
    -- waits. `serverProcess` only waits.
    unfoldable pub wait_fixes : ℕ → Flags → ℕ → ℕ → Position → Hw → Option Bool × Position × Hw
    wait_fixes zero flags timeout since s hw = (none, s, hw)
    wait_fixes (suc fuel) flags timeout since s hw =
        let (done, b, s', hw') = process_gps flags none s (delay 100 hw) in
        let rest = wait_fixes fuel flags timeout since s' hw' in
        if done && not (s'.last_motion_time == 0)
        then (some true, s', hw')
        else if ltb (sub32 (millis hw') since) timeout
        then rest
        else (some false, s', hw')

    unfoldable pub wait_motion_gps : ℕ → Flags → ℕ → Position → Hw → Option Bool × Position × Hw
    wait_motion_gps fuel flags timeout s hw =
        wait_fixes fuel flags timeout (millis hw) (record s { last_motion_time = 0 }) hw
