-- ===== src/Release/Asset.antt =====
-- `verify_release_asset_dir` of scripts/verify_release_asset.py.
pub mod Listing
pub mod Unpacking
pub mod Verdict
