-- ===== src/Idempotency.antt =====
-- Idempotency keys: redis/idempotency.py of src/prodkit_storage.
pub mod Defs
pub mod Slots
mod Examples
