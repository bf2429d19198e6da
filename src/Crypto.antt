-- ===== src/Crypto.antt =====
-- aegis-mesh/crates/aegis-core/src/crypto
pub mod IdentityId
pub mod Identity
pub mod Keystore
pub mod Fingerprint
pub mod Primitives
pub mod Aead
pub mod KeyAgreement
pub mod Signal
pub mod Tests
