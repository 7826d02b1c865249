-- ===== src/Process/Wait.antt =====
-- The wait at the end of a cycle (`process` of src/main.cpp).
use vorsprung_logger.Base.{ℕ, ◌+◌, ◌%◌, ◌^◌, ◌≤◌, ◌≡◌}
use vorsprung_logger.Uds.Decode.{FloatOps}
use vorsprung_logger.Process.Board.{Board}

-- The board's clock shows a time that does not go back, and a delay lasts its time, and no minute more.
pub record IsTimer (f : FloatOps) (board : Board f) (now : board.Hw → ℕ) : Type 0 where
  pub shown : (hw : board.Hw) → board.millis hw ≡ now hw % 2 ^ 32
  pub waits : (ms : ℕ) (hw : board.Hw) → now hw + ms ≤ now (board.delay ms hw)
  pub waits_soon : (ms : ℕ) (hw : board.Hw) → now (board.delay ms hw) ≤ now hw + ms + 60000
