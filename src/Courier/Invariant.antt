-- ===== src/Courier/Invariant.antt =====
-- What holds of the database between two requests to the endpoints of packages/courier/src/api/v1.
pub mod Members
pub mod Keys
pub mod Invitations
