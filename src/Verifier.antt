-- ===== src/Verifier.antt =====
-- The coordinator's check of a worker's result (src/result_verifier.py).
pub mod Nonces
pub mod Retention
pub mod Verification
pub mod Guarantees
pub mod Acceptance
