-- ===== src/Transport.antt =====
-- aegis-mesh/crates/aegis-core/src/transport.
pub mod Lora
pub mod Ble
pub mod Loopback
pub mod Tests
