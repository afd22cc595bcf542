-- ===== src/Audit.antt =====
-- The audit trail: security/audit.py, audit.py and models/audit.py of src/prodkit_storage.
pub mod Values
pub mod Policy
pub mod Secrets
pub mod Blind
pub mod Record
pub mod Stored
mod Examples
