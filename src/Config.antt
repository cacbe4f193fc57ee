-- ===== src/Config.antt =====
-- firmware/main/config.c: the operator keys and their counters, over the NVS library.
pub mod Slots
pub mod Counters
pub mod Lifecycle
pub mod Device
pub mod Texts
pub mod Relay
pub mod Identity
pub mod Setup
pub mod Wifi
pub mod Reset
pub mod Stays
mod Tests
mod TextTests
mod SetupTests
