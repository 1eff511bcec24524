-- ===== src/RuntimeSecurity.antt =====
-- The runtime mode and the worker's authorization context (src/runtime_security.py).
pub mod Mode
pub mod Context
