-- ===== src/RateLimit.antt =====
-- The token bucket: redis/rate_limit.py of src/prodkit_storage.
pub mod Defs
pub mod Bounds
mod Examples
