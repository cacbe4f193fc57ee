-- ===== src/Auth.antt =====
-- firmware/main/auth.c and auth.h: the verification of a command envelope.
pub mod Errors
pub mod Envelope
pub mod Ops
pub mod Verify
pub mod Soundness
pub mod Accepted
pub mod Replay
pub mod Tests
unfoldable pub use Errors.*
unfoldable pub use Envelope.*
unfoldable pub use Ops.*
unfoldable pub use Verify.*
