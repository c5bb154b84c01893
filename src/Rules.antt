-- ===== src/Rules.antt =====
-- The deterministic priority, SLA and routing decision: engine/app/rules.
pub mod Sentiment
pub mod Policy
pub mod Default
pub mod Stage
mod Tests
