-- ===== src/Process/Room.antt =====
-- The room that the parts of a cycle (`process` of src/main.cpp) take in the slot: 190 bytes, so that
-- the slot, which takes 251, has room for everything that a cycle adds.
use vorsprung_logger.Base.{
  ℕ, ◌+◌, ◌*◌, ◌≡◌, ◌⊎◌, inl, inr, Bool, true, false, leb, ◌==◌, Bool-cases, List, [], ◌∷◌, arith,
}
use vorsprung_logger.Buffer.{Buffer}
use vorsprung_logger.Buffer.Room.{Room, Room-none, Room-add, Room-weaken, Room-trans}
use vorsprung_logger.Slots.{Slots}
use vorsprung_logger.Telemetry.Flags.{obd_ready, mems_ready, check}
use vorsprung_logger.Uds.Decode.{FloatOps}
use vorsprung_logger.Uds.Did.{read_did}
use vorsprung_logger.Uds.Room.{process_uds-Room}
use vorsprung_logger.Obd.Tiers.{IsTable, IsIdx}
use vorsprung_logger.Obd.Bounds.{process_obd-Ended}
use vorsprung_logger.Identity.{vin_is_valid}
use vorsprung_logger.Process.Board.{Board, link, engine}
use vorsprung_logger.Process.Parts.{
  max_obd_errors, Logger, polling, poll_engine, cuds, apply_header, poll_units, ask_engine,
  find_engine, engine_part, signal_part, measured, voltage_part, motion_part, gnss_part,
  temperature_part,
}
use vorsprung_logger.Process.Readings.{process_mems-Room, process_gps-Room}
use vorsprung_logger.Process.Cycle.{collect_values}

-- No VIN is known yet, or it is one.
abbrev pub IsName : List ℕ → Type 0
IsName vin = (vin ≡ []) ⊎ (vin_is_valid vin ≡ true)

module _ (f : FloatOps) (board : Board f) where
  open board use {Hw, obd_init, obd_errors}

  -- The table of the polling, its cursors and the VIN are in order, and the slots are these.
  pub record IsLogger (m : Slots) (s : Logger f board) : Type 0 where
    pub table : IsTable s.cells
    pub idx : IsIdx s.idx
    pub at : s.slots ≡ m
    pub named : IsName s.vin

  -- A part that takes so much of the slot that it is given.
  record Takes (m : Slots) (k : ℕ) (b : Buffer) (r : Buffer × Logger f board) : Type 0 where
    room : Room k b r.0
    logger : IsLogger m r.1

  poll_engine-Takes :
      {m : Slots} (b : Buffer) (s : Logger f board)
      → IsLogger m s
      → Takes m 40 b (poll_engine f board b s)
  unfolding poll_engine
  poll_engine-Takes b s good =
      let (ended, polling', room) =
        process_obd-Ended (engine f board s.flags) (λ n bus b'. Room (8 * n) b b')
          (λ n m bus b' le r. Room-weaken (omega (arith, le)) r)
          (λ n pid bus b' r. Room-weaken (omega arith) r)
          (λ n pid value bus b' r. Room-weaken (omega arith) (Room-trans r (Room-add _ _ _ _ b'))) 0
          (polling f board b s) (record { table = good.table; idx = good.idx }) (Room-none b) in
      record {
        room = room;
        logger = record {
          table = polling'.table;
          idx = polling'.idx;
          at = good.at;
          named = good.named;
        };
      }

  poll_units-Takes :
      {m : Slots} (b : Buffer) (s : Logger f board)
      → IsLogger m s
      → Takes m 64 b (poll_units f board b s)
  unfolding poll_units
  poll_units-Takes b s good = record {
    room =
        process_uds-Room f _ (read_did (link f board)) s.scheduler b s.rpm_valid (cuds f board s);
    logger = record { table = good.table; idx = good.idx; at = good.at; named = good.named };
  }

  ask_engine-Takes :
      {m : Slots} (b : Buffer) (s : Logger f board)
      → IsLogger m s
      → Takes m 104 b ((ask_engine f board b s).1, (ask_engine f board b s).2)
  unfolding ask_engine
  ask_engine-Takes b s good =
      let (b₁, s₁) = poll_engine f board b s in
      let polled = poll_engine-Takes b s good in
      let again = obd_init false s₁.hw in
      let s₂ : Logger f board = record s₁ { hw = again.1 } in
      let unit = poll_units-Takes b₁ s₁ polled.logger in
      let unit' = poll_units-Takes b₁ (apply_header f board s₂) (record {
        table = polled.logger.table;
        idx = polled.logger.idx;
        at = polled.logger.at;
        named = polled.logger.named;
      }) in
      elim (Bool-cases (leb max_obd_errors (obd_errors s₁.hw))) [
        | inr few ↦
            rw few (record { room = Room-trans polled.room unit.room; logger = unit.logger })
        | inl many ↦ elim (Bool-cases again.0) [
          | inl e ↦
              rw (many, e)
                (record { room = Room-trans polled.room unit'.room; logger = unit'.logger })
          | inr e ↦
              rw (many, e)
                (record {
                  room = Room-weaken (omega arith) polled.room;
                  logger = record {
                    table = polled.logger.table;
                    idx = polled.logger.idx;
                    at = polled.logger.at;
                    named = polled.logger.named;
                  };
                })
        ]
      ]

  find_engine-IsLogger :
      {m : Slots} (s : Logger f board) → IsLogger m s → IsLogger m (find_engine f board s)
  unfolding find_engine
  find_engine-IsLogger s good = elim (Bool-cases (obd_init true s.hw).0) [
    | inl e ↦ rw e (record { table = good.table; idx = good.idx; at = good.at; named = good.named })
    | inr e ↦ rw e (record { table = good.table; idx = good.idx; at = good.at; named = good.named })
  ]

  engine_part-Takes :
      {m : Slots} (b : Buffer) (s : Logger f board)
      → IsLogger m s
      → Takes m 104 b ((engine_part f board b s).1, (engine_part f board b s).2)
  unfolding engine_part
  engine_part-Takes b s good = elim (Bool-cases (check (obd_ready ∷ []) s.flags)) [
    | inl e ↦ rw e (ask_engine-Takes b s good)
    | inr e ↦ rw e (record {
      room = Room-weaken (omega arith) (Room-none b);
      logger = find_engine-IsLogger s good;
    })
  ]

  signal_part-Takes :
      {m : Slots} (b : Buffer) (s : Logger f board)
      → IsLogger m s
      → Takes m 8 b (signal_part f board b s)
  unfolding signal_part
  signal_part-Takes b s good = elim (Bool-cases (s.rssi == s.rssi_last)) [
    | inl e ↦ rw e (record { room = Room-weaken (omega arith) (Room-none b); logger = good })
    | inr e ↦ rw e (record {
      room = Room-add _ _ _ _ b;
      logger = record { table = good.table; idx = good.idx; at = good.at; named = good.named };
    })
  ]

  voltage_part-Takes :
      {m : Slots} (b : Buffer) (s : Logger f board)
      → IsLogger m s
      → Takes m 6 b (voltage_part f board b s)
  unfolding voltage_part
  voltage_part-Takes {m = m} b s good =
      let logger : IsLogger m (voltage_part f board b s).1 = record {
        table = good.table;
        idx = good.idx;
        at = good.at;
        named = good.named;
      } in
      elim (Bool-cases (f.is_nought (measured f board s).0)) [
        | inl e ↦ rw e (record { room = Room-weaken (omega arith) (Room-none b); logger = logger })
        | inr e ↦ rw e (record { room = Room-add _ _ _ _ b; logger = logger })
      ]

  motion_part-Takes :
      {m : Slots} (b : Buffer) (s : Logger f board)
      → IsLogger m s
      → Takes m 16 b (motion_part f board b s)
  unfolding motion_part
  motion_part-Takes b s good = record {
    room = process_mems-Room f board s.flags b s.motion s.hw;
    logger = record { table = good.table; idx = good.idx; at = good.at; named = good.named };
  }

  gnss_part-Takes :
      {m : Slots} (b : Buffer) (s : Logger f board)
      → IsLogger m s
      → Takes m 48 b (gnss_part f board b s)
  unfolding gnss_part
  gnss_part-Takes b s good = record {
    room = process_gps-Room f board s.flags b s.position s.hw;
    logger = record { table = good.table; idx = good.idx; at = good.at; named = good.named };
  }

  temperature_part-Takes :
      {m : Slots} (b : Buffer) (s : Logger f board)
      → IsLogger m s
      → Takes m 8 b (temperature_part f board b s)
  unfolding temperature_part
  temperature_part-Takes b s good = elim (Bool-cases (check (mems_ready ∷ []) s.flags)) [
    | inl e ↦ rw e (record {
      room = Room-add _ _ _ _ b;
      logger = record { table = good.table; idx = good.idx; at = good.at; named = good.named };
    })
    | inr e ↦ rw e (record {
      room = Room-add _ _ _ _ b;
      logger = record { table = good.table; idx = good.idx; at = good.at; named = good.named };
    })
  ]

  then_Takes :
      {m : Slots} {k l : ℕ} {b : Buffer} {r r' : Buffer × Logger f board}
      → Takes m k b r
      → (IsLogger m r.1 → Takes m l r.0 r')
      → Takes m (k + l) b r'
  then_Takes first next =
      let second = next first.logger in
      record { room = Room-trans first.room second.room; logger = second.logger }

  -- What a cycle collects.
  pub record Collects (m : Slots) (b : Buffer) (r : Bool × Buffer × Logger f board) : Type 0 where
    pub room : Room 190 b r.1
    pub logger : IsLogger m r.2

  pub collect_values-Collects :
      {m : Slots} (b : Buffer) (s : Logger f board)
      → IsLogger m s
      → Collects m b (collect_values f board b s)
  unfolding collect_values
  collect_values-Collects b s good =
      let engine = engine_part-Takes b s good in
      let whole =
        then_Takes
          (then_Takes
            (then_Takes
              (then_Takes (then_Takes engine (signal_part-Takes _ _)) (voltage_part-Takes _ _))
              (motion_part-Takes _ _))
            (gnss_part-Takes _ _))
          (temperature_part-Takes _ _) in
      elim (Bool-cases (engine_part f board b s).0) [
        | inl on ↦ rw on (record { room = whole.room; logger = whole.logger })
        | inr off ↦
            rw off (record { room = Room-weaken (omega arith) engine.room; logger = engine.logger })
      ]
