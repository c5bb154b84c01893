-- ===== src/Schema.antt =====
-- engine/app/schema: the emergent schema, which fields of a tenant's cases become columns.
pub mod Pii
pub mod Promote
pub mod Dedup
pub mod Backfill
mod Tests
