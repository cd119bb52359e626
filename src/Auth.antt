-- ===== src/Auth.antt =====
-- auth.ts: the challenges that members sign.
pub mod Nonces
pub mod Failures
pub mod Postgres
pub mod Stores
pub mod Signatures
pub mod Requests
