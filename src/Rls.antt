-- ===== src/Rls.antt =====
-- The check of row-level security and the names of the roles: database/rls_verification.py and security/roles.py of
-- src/prodkit_storage.
pub mod Defs
pub mod Healthy
mod Examples
