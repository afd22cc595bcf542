-- ===== src/Transactions.antt =====
-- Work in database transactions: database/errors.py, database/transactions.py and
-- database/backfill.py of src/prodkit_storage.
pub mod Errors
pub mod Retry
pub mod Batches
pub mod Backfill
pub mod UnitOfWork
mod Examples
