-- ===== src/Text.antt =====
-- Text as the C library has it: bytes up to a NUL, and numbers printed by `snprintf`.
pub mod Cstring
pub mod Number
