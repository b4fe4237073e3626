-- ===== src/Pubsub.antt =====
-- core/src/pubsub: messages on topics and the validators that they pass.
pub mod Message
pub mod Validation
