-- ===== src/Protocol.antt =====
-- Delegation requests and results on the wire (src/delegation_protocol.py).
pub mod Messages
pub mod Validation
pub mod RoundTrip
pub mod Guarantees
pub mod Acceptance
