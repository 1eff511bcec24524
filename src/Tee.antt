-- ===== src/Tee.antt =====
-- Gateway receipts of TEE authorizations (src/tee_authorization.py).
pub mod Receipt
pub mod Checks
pub mod Guarantees
