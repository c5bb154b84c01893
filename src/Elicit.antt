-- ===== src/Elicit.antt =====
-- The elicitation part: engine/app/elicit/policy.py and engine/app/elicit/stage.py.
pub mod Policy
pub mod Grounding
pub mod Provenance
pub mod Stage
mod Tests
