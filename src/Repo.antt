-- ===== src/Repo.antt =====
-- The repositories of src/modules, one module each, as functions on the table that the in-memory
-- repository keeps. The collation is their argument `same`, the clock's reading their argument `now`.
pub mod Tokens
pub mod Sessions
pub mod Codes
pub mod Verifications
pub mod Social
pub mod Users
pub mod Orgs
pub mod Rbac
pub mod Totp
pub mod Passkeys
