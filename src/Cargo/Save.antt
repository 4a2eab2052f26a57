-- ===== src/Cargo/Save.antt =====
-- Saving the units of a build: packages/hurry/src/cargo/cache/save.rs. What is on disk, the JSON
-- writer, the hash of contents, the store and the server are parameters. Units are saved one by one.
-- The numbers of the progress are a `u64`, taken not to overflow.
pub mod Units
pub mod Loop
pub mod Same
pub mod Progress
pub mod Objects
pub mod Finish
pub mod Stocked
pub mod Runs
pub mod Whole
