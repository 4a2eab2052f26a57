-- ===== src/Courier.antt =====
-- The server (packages/courier).
pub mod Auth
pub mod Tables
pub mod Calls
pub mod Members
pub mod Organizations
pub mod Keys
pub mod Me
pub mod Invitations
pub mod Effect
pub mod Request
pub mod Created
pub mod Invariant
pub mod Serve
pub mod Reach
pub mod Safety
pub mod Authority
pub mod Races
pub mod Cache
pub mod Storage
pub mod Cas
pub mod Signin
