-- ===== src/Tests.antt =====
-- Tests of the model, and the theorems at inputs that meet their hypotheses.
mod Samples
mod Ledger
mod Signing
mod Rules
mod Messages
mod Worker
mod History
mod Executor
mod ReleaseSamples
mod Release
