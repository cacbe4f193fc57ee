-- ===== src/CanonJson.antt =====
-- firmware/main/canon_json.c: the growable buffer, and the canonical text of a JSON value.
mod Buffer
mod Emit
unfoldable pub use Buffer.*
unfoldable pub use Emit.*
