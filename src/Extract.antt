-- ===== src/Extract.antt =====
-- engine/app/extract: the governed fields and the emergent attributes of a case, from its text.
pub mod Names
pub mod Grounded
pub mod Concept
pub mod Profile
pub mod Extractor
pub mod Provenance
pub mod Stage
mod Tests
