-- ===== src/Cache.antt =====
-- The Redis cache: redis/cache.py and redis/keys.py of src/prodkit_storage.
pub mod Keys
pub mod Keyspace
pub mod Defs
pub mod Jitter
pub mod Tags
pub mod Invalidate
pub mod Returned
mod Examples
