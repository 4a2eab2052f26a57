-- ===== src/Examples.antt =====
-- Tests and examples on small concrete builds.
pub mod BuildArgs
pub mod BuildScript
pub mod Cache
pub mod Cas
pub mod Cold
pub mod Courier
pub mod Data
pub mod DepInfo
pub mod Fingerprint
pub mod Restore
pub mod Save
pub mod Signin
