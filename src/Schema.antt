-- ===== src/Schema.antt =====
-- The compatibility of the schema's revision: database/schema_compatibility.py of src/prodkit_storage.
pub mod Defs
pub mod Verdict
mod Examples
