-- ===== src/Auth.antt =====
-- Signed action requests (src/terminal3_agent_auth_adapter.py).
pub mod Hashing
pub mod Signing
pub mod Verification
pub mod Soundness
pub mod RoundTrip
