-- ===== src/Overlay.antt =====
-- core/src/overlay: how the peers of a stream are connected, as a tree and as a mesh.
pub mod Floats
pub mod Peer
pub mod Geo
pub mod Tree
pub mod Mesh
pub mod Topology
mod Tests
