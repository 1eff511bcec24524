-- ===== src/ReplayLedger.antt =====
-- The replay ledger (src/replay_ledger.py): a table of entries that one transaction at a time reads
-- and writes.
pub mod Entry
pub mod Table
pub mod Execution
pub mod Consumption
pub mod Views
pub mod Moves
pub mod Steps
pub mod Traces
pub mod Attempts
pub mod Lease
pub mod Completion
pub mod Integrity
pub mod Tampering
pub mod Answers
pub mod Granting
pub mod Seals
pub mod SealedCalls
pub mod Resumption
pub mod Reopening
pub mod Results
