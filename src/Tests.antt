-- ===== src/Tests.antt =====
-- Concrete runs: a small installation, and each theorem at an input of it.
mod World
mod Components
mod Grants
mod SignIns
mod Links
mod Accounts
mod Passkeys
mod Roles
mod Endpoints
mod Pruning
