-- ===== src/Time.antt =====
-- Capture ticks and UTC time: src/timeanchor.cpp and include/timeanchor.h.
pub mod Civil
pub mod Calendar
pub mod Wire
pub mod Inverse
pub mod Anchor
pub mod Boot
pub mod Session
pub mod Resolve
