-- ===== src/Relay.antt =====
-- firmware/main/relay_client.c: the client of the relay.
pub mod Link
pub mod Lockout
pub mod Backoff
pub mod Assembly
pub mod Commands
pub mod Dispatch
pub mod Hints
