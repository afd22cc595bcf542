-- ===== src/Filtering.antt =====
-- Allow-listed filters: database/filtering.py of src/prodkit_storage.
pub mod Defs
pub mod Allowed
mod Examples
