-- ===== src/Relay.antt =====
-- core/src/overlay/relay: the data path of a relay node.
pub mod Chunk
pub mod Stats
pub mod Stream
pub mod Node
mod Tests
