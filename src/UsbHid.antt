-- ===== src/UsbHid.antt =====
-- The USB keyboard, firmware/main/usb_hid.c, in the build that has it with keyboard input.
pub mod State
pub mod Report
pub mod Keys
pub mod Actions
pub mod Chains
pub mod Release
pub mod Sending
pub mod Order
pub mod Typing
pub mod Finish
pub mod Runs
pub mod Chords
pub mod Returns
pub mod Bounded
pub mod Completes
mod Tests
