-- ===== src/Outbox.antt =====
-- The transactional outbox: models/outbox.py and outbox.py of src/prodkit_storage.
-- `Defs` holds the row and what the operations do to one row, `Session` what the code relies on of
-- the database session, `Ops` the operations on the table. The other modules prove.
pub mod Defs
pub mod Session
pub mod Ops
pub mod Rows
pub mod Refines
pub mod Failing
pub mod Leases
pub mod Completion
pub mod Failure
pub mod Metrics
mod Examples
