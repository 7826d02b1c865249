-- ===== src/Process/Runs.antt =====
-- Every run of the main task (`setup`, then `loop` again and again, src/main.cpp), with what the other
-- task does to the globals between two rounds.
use vorsprung_logger.Base.{
  ℕ, ◌≡◌, refl, inl, inr, Bool-cases, false, not, [], ◌∷◌, none, some, get_elem?,
}
use vorsprung_logger.Buffer.{Buffer}
use vorsprung_logger.Slots.{Slots, got}
use vorsprung_logger.Slots.Clear.{Touches, Touches-AllClear}
use vorsprung_logger.Telemetry.Flags.{working, Flags, check}
use vorsprung_logger.Time.Anchor.{Anchor}
use vorsprung_logger.Uds.Decode.{FloatOps}
use vorsprung_logger.Spool.{World}
use vorsprung_logger.Process.Board.{Board}
use vorsprung_logger.Process.Parts.{Logger}
use vorsprung_logger.Buffer.Room.{HasRoom}
use vorsprung_logger.Process.Cycle.{opened, cycle_of, turn_of, process}
use vorsprung_logger.Process.Whole.{collected, finished, process-HasRoom, IsReady, process-IsReady}
use vorsprung_logger.Process.Startup.{initialize-IsReady, IsBoot, setup-IsReady}
use vorsprung_logger.Process.Task.{stand_by, loop, setup}

module _ (f : FloatOps) (board : Board f) where
  loop-IsReady :
      (fuel : ℕ) (s : Logger f board) → IsReady f board s → IsReady f board (loop f board fuel s)
  unfolding loop stand_by
  loop-IsReady fuel s ready =
      elim (Bool-cases
        (elim s.pending [ none ↦ not (check (working ∷ []) s.flags) | some c ↦ false ])) [
          | inr e ↦ rw e (process-IsReady f board fuel s ready)
          | inl e ↦ rw e (
              initialize-IsReady f board {m = s.slots} fuel (stand_by f board fuel s) (record {
                table = ready.logger.table;
                idx = ready.logger.idx;
                at = refl;
                named = ready.logger.named;
              }))
        ]

  -- The states between two rounds of the main task. The other task may have called its operations of
  -- the slots, moved the flags, noted a signal strength and a time, and worked on the card.
  pub data Reached (fuel : ℕ) : Logger f board → Type 0 where
    booted :
        (s t : Logger f board) → IsBoot f board s → setup f board fuel s ≡ some t → Reached fuel t
    looped : (s : Logger f board) → Reached fuel s → Reached fuel (loop f board fuel s)
    elsewhere :
        (s : Logger f board) (m : Slots) (flags : Flags) (rssi : ℕ) (anchor : Anchor)
        (world : World board.card)
        → Reached fuel s
        → Touches s.slots m
        → Reached fuel (record s {
          slots = m;
          flags = flags;
          rssi = rssi;
          world = world;
          position = record (s.position) { anchor = anchor };
        })

  -- Whatever the drivers answer and the other task does: whenever a round of the main task begins, the
  -- table of the engine's values and the cursors of its tiers are in order, an empty slot is blank,
  -- and the VIN is empty or seventeen characters of its alphabet. At boot the table and the cursors
  -- were in order and the VIN was empty.
  pub Reached-IsReady : (fuel : ℕ) (s : Logger f board) → Reached fuel s → IsReady f board s
  Reached-IsReady fuel _ (booted s t boot runs) = setup-IsReady f board fuel s t boot runs
  Reached-IsReady fuel _ (looped s run) = loop-IsReady fuel s (Reached-IsReady fuel s run)
  Reached-IsReady fuel _ (elsewhere s m flags rssi anchor world run touch) =
      let ready = Reached-IsReady fuel s run in
      record {
        logger = record {
          table = ready.logger.table;
          idx = ready.logger.idx;
          at = refl;
          named = ready.logger.named;
        };
        clear = Touches-AllClear ready.clear touch;
      }

  -- In each cycle of any run the slot has room to spare: when `getFree` hands out the slot `i`, at once
  -- or at the end of its wait, the last value that the cycle adds leaves one element there for each of
  -- some calls of `add`, one behind the other, in 190 bytes at most, and a further element of up to 65
  -- bytes would still be accepted. The slot `i` then is that slot, marked as complete unless the
  -- engine's control unit went off.
  pub cycle-HasRoom :
      (fuel i : ℕ) (m : Slots) (b : Buffer) (s : Logger f board)
      → Reached fuel s
      → turn_of f board s.pending s ≡ got i m
      → get_elem? m.slots i ≡ some b
      → let s' : Logger f board = record s { slots = m; pending = none } in
        let tick = (cycle_of f board s.pending s).tick in
        HasRoom 190 65 (opened f board tick b) (collected f board tick b s').1
        × (get_elem? (process f board fuel s).slots.slots i ≡ some (finished f board tick b s'))
  cycle-HasRoom fuel i m b s run = process-HasRoom f board fuel i m b s (Reached-IsReady fuel s run)
