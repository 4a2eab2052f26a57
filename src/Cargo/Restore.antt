-- ===== src/Cargo/Restore.antt =====
-- The restore of cached units: packages/hurry/src/cargo/cache/restore.rs.
pub mod Progress
pub mod Filter
pub mod Queue
pub mod Cold
pub mod Batch
