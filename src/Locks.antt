-- ===== src/Locks.antt =====
-- Distributed locks: redis/locks.py of src/prodkit_storage.
pub mod Defs
pub mod Waiting
pub mod Safety
mod Examples
