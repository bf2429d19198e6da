-- ===== src/Mesh.antt =====
-- aegis-mesh/crates/aegis-core/src/mesh
pub mod Router
pub mod StoreForward
pub mod Peer
pub mod Tests
