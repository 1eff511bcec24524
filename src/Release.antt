-- ===== src/Release.antt =====
-- The scripts that verify a release (scripts/verify_release.py and those that build on it).
pub mod Canonical
pub mod Printed
pub mod Reader
pub mod Injective
pub mod Platform
pub mod Files
pub mod Schema
pub mod Manifest
pub mod Inputs
pub mod Attestation
pub mod Directory
pub mod Archive
pub mod Remote
pub mod Asset
pub mod AssetRemote
pub mod TestsRun
pub mod Validation
pub mod Paging
pub mod Guarantees
