-- ===== src/Sorting.antt =====
-- Deterministic sorting and its keyset boundary: database/sorting.py of src/prodkit_storage.
pub mod Defs
pub mod Registry
pub mod TieBreaker
pub mod Boundary
pub mod Plans
pub mod Examples
