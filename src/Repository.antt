-- ===== src/Repository.antt =====
-- The typed repository: database/repository.py and the soft deletion of database/base.py of
-- src/prodkit_storage.
pub mod Statements
pub mod Reads
pub mod Writes
pub mod Async
pub mod Rows
pub mod Visible
mod Examples
