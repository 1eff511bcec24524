-- ===== src/Release/Guarantees.antt =====
-- What a release that is verified guarantees (scripts/verify_release.py).
pub mod Schema
pub mod Inputs
pub mod Attestation
pub mod Directory
pub mod Archive
pub mod Runs
pub mod Artifact
pub mod Remote
pub mod AssetList
pub mod Asset
pub mod AssetRemote
pub mod Validation
