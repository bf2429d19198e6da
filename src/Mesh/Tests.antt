-- ===== src/Mesh/Tests.antt =====
-- The theorems on aegis-mesh/crates/aegis-core/src/mesh at concrete values.
pub mod Router
pub mod StoreForward
pub mod Peer
