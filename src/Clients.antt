-- ===== src/Clients.antt =====
-- The API types that the client and the server share: packages/clients/src/courier.
pub mod Saved
pub mod Glibc
pub mod Requests
