-- ===== src/Telemetry.antt =====
-- The telemetry task of src/main.cpp: packets from slots, the spooling of what cannot be sent, and
-- the loop that keeps the link.
pub mod Flags
pub mod Packet
pub mod Queue
pub mod Task
pub mod Loop
pub mod Order
pub mod Link
pub mod Kept
pub mod OpenText
pub mod Backstamp
