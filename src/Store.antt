-- ===== src/Store.antt =====
-- The store: engine/app/store/api.py, one tenant's tables. Row-level security, which hides the other
-- tenants' rows, is the database's.
pub mod Case
pub mod Ledger
pub mod Log
pub mod Documents
pub mod Registry
pub mod Outbound
pub mod Database
pub mod Decision
mod Tests
