-- ===== src/Security.antt =====
-- Secrets and the names of the roles: security/secrets.py and security/roles.py of src/prodkit_storage.
pub mod Secrets
pub mod Loaded
pub mod Roles
mod Examples
