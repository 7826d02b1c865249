-- ===== src/Examples.antt =====
-- Tests of the definitions on concrete inputs, and the theorems at such inputs.
mod Memory
mod Times
mod Packets
mod Spools
mod Diagnostics
mod Identity
mod Replies
mod Engine
mod Receivers
mod Boots
mod Sensors
mod Drives
mod Client
mod Telemetry
