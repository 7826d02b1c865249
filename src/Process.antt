-- ===== src/Process.antt =====
-- The main task of src/main.cpp: `process`, which fills one slot in each cycle.
pub mod Board
pub mod Parts
pub mod Cycle
pub mod Readings
pub mod Room
pub mod Whole
pub mod Task
pub mod Wait
pub mod Startup
pub mod Runs
