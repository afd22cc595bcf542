-- ===== src/Context.antt =====
-- Request and tenant context: context.py and database/tenant.py of src/prodkit_storage.
pub mod Defs
pub mod Tenant
mod Examples
