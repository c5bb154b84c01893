-- ===== src/Portal.antt =====
-- The customer's portal: engine/app/portal.
pub mod Limit
pub mod Status
pub mod Submit
pub mod Tokens
mod Tests
