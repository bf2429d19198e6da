-- ===== src/Storage.antt =====
-- aegis-mesh/crates/aegis-core/src/storage: the database of a node.
pub mod Sqlite
pub mod Tests
