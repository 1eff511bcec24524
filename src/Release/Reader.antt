-- ===== src/Release/Reader.antt =====
-- A reader of canonical JSON, the reference for the printer of scripts/verify_release.py.
pub mod Texts
pub mod Numbers
pub mod Values
pub mod RoundTrip
