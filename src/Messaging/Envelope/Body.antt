-- ===== src/Messaging/Envelope/Body.antt =====
-- aegis-mesh/crates/aegis-core/src/messaging/envelope.rs: the payload of an envelope.
use aegis_mesh.Base.{ℕ, Bool}
use aegis_mesh.Base.Text.{Text, Bytes}
use aegis_mesh.Crypto.IdentityId.{IdentityId}
use aegis_mesh.Messaging.Envelope.Id.{EnvelopeId}

pub data Payload : Type 0 where
  text : Text → Payload
  encrypted : Bytes → Payload
  binary : Bytes → Payload
  -- origin, hop count, sequence number, the origin's verifying key
  route_announce : IdentityId → ℕ → ℕ → Bytes → Payload
  -- display name, verifying key
  discovery : Text → Bytes → Payload
  receipt : EnvelopeId → Bool → Payload
