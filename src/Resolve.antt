-- ===== src/Resolve.antt =====
-- The object store and entity resolution: engine/app/resolve.
pub mod Ingest
pub mod Objects
pub mod Profile
pub mod Resolver
mod Tests
