-- ===== src/Cargo.antt =====
-- Components of packages/hurry/src/cargo.
pub mod Target
pub mod Units
pub mod Restore
pub mod Save
pub mod Result
pub mod Fingerprint
pub mod Path
pub mod BuildScript
pub mod DepInfo
pub mod BuildArgs
