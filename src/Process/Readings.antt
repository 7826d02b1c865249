-- ===== src/Process/Readings.antt =====
-- The room that the motion sensor and the receiver take in a slot (`processMEMS` and `processGPS` of
-- src/main.cpp).
use vorsprung_logger.Base.{
  ℕ, ◌+◌, ◌%◌, inl, inr, ◌==◌, Bool-cases, Option-cases, [], ◌∷◌, Option, none, some, arith, u8_mod,
}
use vorsprung_logger.Buffer.{Buffer}
use vorsprung_logger.Buffer.Room.{Room, Room-none, Room-add, Room-weaken, Room-trans}
use vorsprung_logger.Telemetry.Flags.{mems_ready, gps_ready, Flags, check}
use vorsprung_logger.Uds.Decode.{FloatOps}
use vorsprung_logger.Motion.{Motion, process_mems}
use vorsprung_logger.Gnss.Position.{
  GpsData, Position, add_fix, no_position, jumps, take_date, take_fix, take_data, process_gps,
  begin_fix,
}
use vorsprung_logger.Process.Board.{Board, sensor, fixes}
use vorsprung_logger.Process.Parts.{or_same}

module _ (f : FloatOps) (board : Board f) where
  open board use {Hw}

  pub process_mems-Room :
      (flags : Flags) (b : Buffer) (m : Motion f) (hw : Hw)
      → Room 16 b (or_same f board b (process_mems f (sensor f board) flags (some b) m hw).0)
  unfolding process_mems
  process_mems-Room flags b m hw =
      let same = Room-weaken {k = 0} {l = 16} (omega arith) (Room-none b) in
      elim (Bool-cases (check (mems_ready ∷ []) flags)) [
        | inr e ↦ rw e same
        | inl e ↦ elim (Option-cases (board.read hw).0) [
          | inl h ↦ rw (e, h) same
          | inr (sample, h) ↦ elim (Bool-cases ((m.acc_count + 1) % u8_mod == 0)) [
            | inl z ↦ rw (e, h, z) same
            | inr z ↦ rw (e, h, z) (Room-add _ _ _ _ b)
          ]
        ]
      ]

  add_fix-Room : (d : GpsData f) (b : Buffer) → Room 48 b (add_fix f d b)
  unfolding add_fix
  add_fix-Room d b =
      let five =
        Room-trans
          (Room-trans
            (Room-trans (Room-trans (Room-add _ _ _ _ b) (Room-add _ _ _ _ _)) (Room-add _ _ _ _ _))
            (Room-add _ _ _ _ _))
          (Room-add _ _ _ _ _) in
      elim (Bool-cases (d.sat == 0)) [
        | inl p ↦ elim (Bool-cases (d.hdop == 0)) [
          | inl q ↦ rw (p, q) (Room-weaken (omega arith) five)
          | inr q ↦ rw (p, q) (Room-weaken (omega arith) (Room-trans five (Room-add _ _ _ _ _)))
        ]
        | inr p ↦ elim (Bool-cases (d.hdop == 0)) [
          | inl q ↦ rw (p, q) (Room-weaken (omega arith) (Room-trans five (Room-add _ _ _ _ _)))
          | inr q ↦
              rw (p, q) (Room-trans (Room-trans five (Room-add _ _ _ _ _)) (Room-add _ _ _ _ _))
        ]
      ]

  take_data-Room :
      (o : Option (GpsData f)) (b : Buffer) (now tick : ℕ) (s : Position f)
      → Room 48 b (or_same f board b (take_data f o (some b) now tick s).1)
  unfolding take_fix
  take_data-Room none b now tick s = Room-weaken (omega arith) (Room-none b)
  take_data-Room (some d) b now tick s =
      let same = Room-weaken {k = 0} {l = 48} (omega arith) (Room-none b) in
      elim (Bool-cases (s.last_gps_time == d.time)) [
        | inl e ↦ rw e same
        | inr e ↦ elim (Bool-cases (no_position f d)) [
          | inl n ↦ rw (e, n) same
          | inr n ↦ elim (Bool-cases (jumps f d (take_date f d tick s))) [
            | inl j ↦ rw (e, n, j) same
            | inr j ↦ rw (e, n, j) (add_fix-Room d b)
          ]
        ]
      ]

  pub process_gps-Room :
      (flags : Flags) (b : Buffer) (s : Position f) (hw : Hw)
      → Room 48 b (or_same f board b (process_gps f (fixes f board) flags (some b) s hw).1)
  unfolding process_gps
  process_gps-Room flags b s hw =
      let s' = begin_fix f s in
      let (fresh, d, hw') = board.gps_get_data hw in
      elim (Bool-cases (check (gps_ready ∷ []) flags)) [
        | inr e ↦ rw e (take_data-Room s'.gd b (board.millis hw) (board.ticks hw) s')
        | inl e ↦ elim (Bool-cases fresh) [
          | inr n ↦ rw (e, n) (Room-weaken (omega arith) (Room-none b))
          | inl y ↦
              rw (e, y)
                (take_data-Room (some d) b (board.millis hw') (board.ticks hw')
                  (record s' { gd = some d }))
        ]
      ]
