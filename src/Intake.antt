-- ===== src/Intake.antt =====
-- The intake part: engine/app/intake.
pub mod Windowing
pub mod Ingest
mod Tests
