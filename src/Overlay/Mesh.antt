-- ===== src/Overlay/Mesh.antt =====
-- core/src/overlay/mesh: the mesh of peers that a stream falls back on.
pub mod Network
pub mod Candidates
pub mod Limits
pub mod Runs
pub mod Links
pub mod Joins
pub mod Build
