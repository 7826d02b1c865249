-- ===== src/Gnss.antt =====
-- The receiver of src/main.cpp: `initGPS`, and the watchdog in `process` that starts it anew. The
-- drivers behind `sys` are a parameter, with the clock and the buzzer.
pub mod Watchdog
pub mod Position
pub mod Filter
use vorsprung_logger.Base.{
  ℕ, zero, suc, ◌+◌, ◌*◌, ◌%◌, Bool, true, false, not, ltb, ◌&&◌, if◌then◌else◌, List, [], ◌∷◌,
  u8_mod, sub32,
}
use vorsprung_logger.Telemetry.Flags.{gps_ready, gps_online, Flags, set, clear}

abbrev pub gnss_reset_timeout : ℕ
gnss_reset_timeout = 300

pub data GnssSource : Type 0 where
  gnss_src_none gnss_src_external gnss_src_internal : GnssSource

abbrev pub is_external : GnssSource → Bool
is_external s = elim s [ gnss_src_external ↦ true | _ ↦ false ]

abbrev pub is_internal : GnssSource → Bool
is_internal s = elim s [ gnss_src_internal ↦ true | _ ↦ false ]

-- `gps_end` is told whether the receiver loses its power.
pub record Receiver : Type 1 where
  pub Sys : Type 0
  pub gps_begin_ext : Sys → Bool × Sys
  pub gps_begin : Sys → Bool × Sys
  pub gps_end : Bool → Sys → Sys
  pub buzzer : ℕ → Sys → Sys
  pub delay : ℕ → Sys → Sys
  pub millis : Sys → ℕ

module _ (receiver : Receiver) where
  open receiver use {Sys, gps_begin_ext, gps_begin, gps_end, buzzer, delay, millis}

  -- `playTune`, of frequencies and durations.
  unfoldable pub play_tune : List (ℕ × ℕ) → Sys → Sys
  play_tune [] sys = buzzer 0 sys
  play_tune ((frequency, duration) ∷ notes) sys =
      play_tune notes (delay duration (buzzer frequency sys))

  unfoldable pub chime_gnss_external : Sys → Sys
  chime_gnss_external sys = play_tune ((1568, 90) ∷ (2349, 160) ∷ []) sys

  unfoldable pub chime_gnss_internal : Sys → Sys
  chime_gnss_internal sys = play_tune ((784, 150) ∷ (659, 150) ∷ (440, 300) ∷ []) sys

  -- `gnssSource`, the two variables of the watchdog, the state word, and what the drivers keep.
  pub record Gnss : Type 0 where
    pub source : GnssSource
    pub last_gps_tick : ℕ
    pub resets : ℕ
    pub flags : Flags
    pub sys : Sys

  unfoldable pub init_gps : Gnss → Bool × Gnss
  init_gps s =
      let (external, sys₁) = gps_begin_ext s.sys in
      let (internal, sys₂) = gps_begin sys₁ in
      if external
      then (
        true,
        record s {
          source = gnss_src_external;
          sys = if is_external s.source then sys₁ else chime_gnss_external sys₁;
        },
      )
      else if internal
      then (
        true,
        record s {
          source = gnss_src_internal;
          sys = if is_internal s.source then sys₂ else chime_gnss_internal sys₂;
        },
      )
      else (false, record s { source = gnss_src_none; sys = sys₂ })

  -- The receiver is shut down, with its power only behind a restart that did not help, and begun
  -- anew.
  unfoldable pub restart : Gnss → Gnss
  restart s =
      let stopped : Gnss = record s {
        flags = clear (gps_online ∷ gps_ready ∷ []) s.flags;
        sys = delay 20 (gps_end (ltb 0 s.resets) s.sys);
      } in
      let (begun, t) = init_gps stopped in
      record t {
        flags = if begun then set (gps_ready ∷ []) t.flags else t.flags;
        resets = (t.resets + 1) % u8_mod;
        last_gps_tick = millis t.sys;
      }

  -- The watchdog, behind a `processGPS` that answered `success`.
  unfoldable pub watch : Bool → Gnss → Gnss
  watch success s =
      if success
      then record s {
        last_gps_tick = millis s.sys;
        resets = 0;
        flags = set (gps_online ∷ []) s.flags;
      }
      else if ltb (gnss_reset_timeout * 1000) (sub32 (millis s.sys) s.last_gps_tick)
      then restart s
      else s
