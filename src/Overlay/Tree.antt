-- ===== src/Overlay/Tree.antt =====
-- core/src/overlay/tree.rs: the distribution tree of a stream.
pub mod Node
pub mod Stream
pub mod Rebalance
pub mod Steps
pub mod Search
pub mod FanOut
pub mod Links
pub mod Paths
