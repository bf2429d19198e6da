-- ===== src/Messaging.antt =====
-- aegis-mesh/crates/aegis-core/src/messaging
pub mod Priority
pub mod Envelope
pub mod Channel
pub mod Tests
