-- ===== src/Policy.antt =====
-- The delegation policy (src/delegation_policy.py).
pub mod Rules
pub mod Decisions
pub mod Edits
