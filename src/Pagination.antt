-- ===== src/Pagination.antt =====
-- Signed keyset pagination and offset pagination: database/pagination.py of src/prodkit_storage.
pub mod Values
pub mod Distinct
pub mod Cursor
pub mod Pages
pub mod Strict
pub mod Walk
pub mod Offset
mod Examples
