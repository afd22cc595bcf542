-- ===== src/Migrations.antt =====
-- The safety linter of migrations: database/migration_safety.py of src/prodkit_storage.
pub mod Syntax
pub mod Scanner
pub mod Report
pub mod Calls
pub mod Soundness
pub mod Accepted
mod Examples
