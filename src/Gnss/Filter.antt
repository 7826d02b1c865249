-- ===== src/Gnss/Filter.antt =====
-- Which fixes `processGPS` (src/main.cpp) accepts.
use vorsprung_logger.Base.{
  ℕ, ◌≡◌, ◌≢◌, refl, Bool, true, false, ◌&&◌, inl, inr, Bool-cases, sym, ap, ◌∙◌, ◌⊎◌, List, [],
  ◌∷◌, Option, some, arith, All,
}
use mathlib.Core.Path.{subst}
use vorsprung_logger.Buffer.{Buffer}
use vorsprung_logger.Telemetry.Flags.{gps_ready, Flags, check}
use vorsprung_logger.Uds.Decode.{FloatOps}
use vorsprung_logger.Gnss.Position.{
  GpsData, Fixes, Position, no_position, begin_fix, take_fix, process_gps,
}

module _ (f : FloatOps) where
  -- What an accepted fix leaves.
  pub record IsLast (d : GpsData f) (s : Position f) : Type 0 where
    pub time : s.last_gps_time ≡ d.time
    pub lat : s.last_gps_lat ≡ d.lat
    pub lng : s.last_gps_lng ≡ d.lng

  take_fix-IsLast :
      (d : GpsData f) (b : Option Buffer) (now tick : ℕ) (s : Position f)
      → (take_fix f d b now tick s).0 ≡ true
      → IsLast d (take_fix f d b now tick s).2
        × ((take_fix f d b now tick s).2.gd ≡ s.gd)
        × (no_position f d ≡ false)
  unfolding take_fix
  take_fix-IsLast d b now tick s h = ground arith

  -- A fix of the time of the last one, or without a position, leaves the place.
  take_fix-keeps :
      (d last : GpsData f) (b : Option Buffer) (now tick : ℕ) (s : Position f)
      → IsLast last s
      → (d.time ≡ last.time) ⊎ (no_position f d ≡ true)
      → IsLast last (take_fix f d b now tick s).2 × ((take_fix f d b now tick s).2.gd ≡ s.gd)
  unfolding take_fix
  take_fix-keeps d last b now tick s at quiet = ground (arith, at.time, at.lat, at.lng, quiet)

  take_fix-near :
      (d : GpsData f) (b : Option Buffer) (now tick : ℕ) (s : Position f)
      → (f.is_nought s.last_gps_lng && f.is_nought s.last_gps_lat) ≡ false
      → (take_fix f d b now tick s).0 ≡ true
      → (s.last_gps_time ≢ d.time)
        × (f.far (f.minus d.lat s.last_gps_lat) ≡ false)
        × (f.far (f.minus d.lng s.last_gps_lng) ≡ false)
  unfolding take_fix
  take_fix-near d b now tick s place h = ground arith

  module _ (fixes : Fixes f) where
    open fixes use {Hw, gps_get_data, millis, ticks}

    -- The data that a call gets.
    abbrev pub data_of : Hw → GpsData f
    data_of hw = (gps_get_data hw).1

    -- The state with which a fix is judged.
    abbrev at_fix : Position f → Hw → Position f
    at_fix s hw = record (begin_fix f s) { gd = some (data_of hw) }

    abbrev judged : Option Buffer → Position f → Hw → Bool × Option Buffer × Position f
    judged b s hw =
        take_fix f (data_of hw) b (millis (gps_get_data hw).2) (ticks (gps_get_data hw).2)
          (at_fix s hw)

    accepted :
        (flags : Flags) (b : Option Buffer) (s : Position f) (hw : Hw)
        → check (gps_ready ∷ []) flags ≡ true
        → (process_gps f fixes flags b s hw).0 ≡ true
        → ((judged b s hw).0 ≡ true) × ((process_gps f fixes flags b s hw).2 ≡ (judged b s hw).2)
    unfolding process_gps
    accepted flags b s hw ready h = elim (Bool-cases (gps_get_data hw).0) [
      | inl fresh ↦ (rw (ready, fresh) at h, rw (ready, fresh) refl)
      | inr stale ↦ cc (rw (ready, stale) at h)
    ]

    begin_fix-some : (s : Position f) (d : GpsData f) → s.gd ≡ some d → begin_fix f s ≡ s
    begin_fix-some s d h = ground arith

    -- A call that brings no new fix to judge: no data, the fix `last` again, or one without a position.
    abbrev pub IsQuiet : GpsData f → Hw → Type 0
    IsQuiet last hw =
        ((gps_get_data hw).0 ≡ false)
        ⊎ ((data_of hw).time ≡ last.time)
        ⊎ (no_position f (data_of hw) ≡ true)

    -- The state in which calls that find the place of `last` leave it.
    record Holds (last : GpsData f) (s : Position f) : Type 0 where
      pub place : IsLast last s
      pub kept : GpsData f
      pub got : s.gd ≡ some kept

    quiet_call :
        (flags : Flags) (b : Option Buffer) (s : Position f) (hw : Hw) (last : GpsData f)
        → check (gps_ready ∷ []) flags ≡ true
        → Holds last s
        → IsQuiet last hw
        → Holds last (process_gps f fixes flags b s hw).2
    unfolding process_gps
    quiet_call flags b s hw last ready held quiet =
        let here : IsLast last (begin_fix f s) =
          subst (IsLast last) (sym (begin_fix-some s held.kept held.got)) held.place in
        let at : IsLast last (at_fix s hw) = record {
          time = here.time;
          lat = here.lat;
          lng = here.lng;
        } in
        elim (Bool-cases (gps_get_data hw).0) [
          | inr stale ↦ rw (ready, stale) (record { place = at; kept = data_of hw; got = refl })
          | inl fresh ↦
              let left =
                take_fix-keeps (data_of hw) last b (millis (gps_get_data hw).2)
                  (ticks (gps_get_data hw).2) (at_fix s hw) at
                  (elim quiet [ inl e ↦ absurd (ground (arith, e, fresh)) | inr q ↦ q ]) in
              rw (ready, fresh) (record { place = left.0; kept = data_of hw; got = left.1 })
        ]

    -- The calls one behind the other, each with its slot and what the receiver has done before it.
    unfoldable pub quiet_calls : Flags → List (Option Buffer × Hw) → Position f → Position f
    quiet_calls flags [] s = s
    quiet_calls flags ((b, hw) ∷ calls) s =
        quiet_calls flags calls (process_gps f fixes flags b s hw).2

    quiet_calls-Holds :
        (flags : Flags) (calls : List (Option Buffer × Hw)) (s : Position f) (last : GpsData f)
        → check (gps_ready ∷ []) flags ≡ true
        → Holds last s
        → All (λ (call : Option Buffer × Hw). IsQuiet last call.1) calls
        → Holds last (quiet_calls flags calls s)
    unfolding quiet_calls
    quiet_calls-Holds flags [] s last ready held quiet = held
    quiet_calls-Holds flags ((b, hw) ∷ calls) s last ready held quiet =
        quiet_calls-Holds flags calls (process_gps f fixes flags b s hw).2 last ready
          (quiet_call flags b s hw last ready held quiet.0) quiet.1

    -- When two calls both accept their fix, and every call between them found no data, or the first
    -- fix again, or a fix without a position, then the second fix is of another time, and within a
    -- thousandth of a degree of the first in latitude and in longitude. The receiver is ready, and it
    -- has done anything between the calls. Nothing is said of a fix behind one that was refused for
    -- its distance, which forgets the place.
    pub process_gps-near :
        (flags : Flags) (b c : Option Buffer) (s : Position f) (hw hw' : Hw)
        (between : List (Option Buffer × Hw))
        → check (gps_ready ∷ []) flags ≡ true
        → (process_gps f fixes flags b s hw).0 ≡ true
        → All (λ (call : Option Buffer × Hw). IsQuiet (data_of hw) call.1) between
        → (process_gps f fixes flags c
            (quiet_calls flags between (process_gps f fixes flags b s hw).2)
            hw').0
          ≡ true
        → ((data_of hw).time ≢ (data_of hw').time)
          × (f.far (f.minus (data_of hw').lat (data_of hw).lat) ≡ false)
          × (f.far (f.minus (data_of hw').lng (data_of hw).lng) ≡ false)
    process_gps-near flags b c s hw hw' between ready first quiet second =
        let d = data_of hw in
        let (did, left) = accepted flags b s hw ready first in
        let (last, gd, placed) =
          take_fix-IsLast d b (millis (gps_get_data hw).2) (ticks (gps_get_data hw).2) (at_fix s hw)
            did in
        let start : Holds d (process_gps f fixes flags b s hw).2 =
          subst (Holds d) (sym left) (record { place = last; kept = d; got = gd }) in
        let s₁ = quiet_calls flags between (process_gps f fixes flags b s hw).2 in
        let held =
          quiet_calls-Holds flags between (process_gps f fixes flags b s hw).2 d ready start
            quiet in
        let at : IsLast d (begin_fix f s₁) =
          subst (IsLast d) (sym (begin_fix-some s₁ held.kept held.got)) held.place in
        let place : (f.is_nought (begin_fix f s₁).last_gps_lng
              && f.is_nought (begin_fix f s₁).last_gps_lat)
            ≡ false =
          ap (λ (v : f.Float). f.is_nought v && f.is_nought (begin_fix f s₁).last_gps_lat) at.lng
          ∙ ap (λ (v : f.Float). f.is_nought d.lng && f.is_nought v) at.lat
          ∙ placed in
        let (other, north, east) =
          take_fix-near (data_of hw') c (millis (gps_get_data hw').2) (ticks (gps_get_data hw').2)
            (at_fix s₁ hw') place (accepted flags c s₁ hw' ready second).0 in
        (
          λ e. other (at.time ∙ e),
          ap (λ (v : f.Float). f.far (f.minus (data_of hw').lat v)) (sym at.lat) ∙ north,
          ap (λ (v : f.Float). f.far (f.minus (data_of hw').lng v)) (sym at.lng) ∙ east,
        )
