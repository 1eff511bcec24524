-- ===== src/Network.antt =====
-- An agent of the network (src/agent_delegation_network.py).
pub mod Agent
pub mod Execution
pub mod Processing
pub mod Delegation
pub mod Authorization
pub mod LedgerCalls
pub mod ExecutionCalls
pub mod History
pub mod Replies
pub mod Registers
