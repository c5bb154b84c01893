-- ===== src/Channel.antt =====
-- The outbound part: engine/app/channel.
pub mod Dispatch
mod Tests
