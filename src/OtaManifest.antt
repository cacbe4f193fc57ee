-- ===== src/OtaManifest.antt =====
-- firmware/main/ota_manifest.c: the checks that a firmware update passes before it is downloaded.
pub mod Text
pub mod Flat
pub mod Verify
pub mod Origin
pub mod Trusted
pub mod Tests
