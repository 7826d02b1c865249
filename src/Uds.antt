-- ===== src/Uds.antt =====
-- The diagnostic requests: the table of include/uds_dids.h and the scheduler of src/main.cpp.
pub mod Table
pub mod Hex
pub mod Did
pub mod Reply
pub mod Answers
pub mod Decode
pub mod Schedule
pub mod Rows
pub mod Budget
pub mod Room
pub mod Kept
pub mod Group
pub mod Rounds
pub mod Fair
