-- ===== src/Moderation.antt =====
-- core/src/moderation: blocking, whitelisting and flagging on one node.
pub mod Types
pub mod Manager
pub mod History
pub mod Changes
pub mod Answers
pub mod Sharing
mod Tests
