-- ===== src/Messaging/Envelope/Wire/SignedText.antt =====
-- aegis-mesh/crates/aegis-core/src/messaging/envelope.rs: a direct text that is signed, as
-- aegis-mesh/crates/aegis-cli/src/commands/send.rs and aegis-mesh/crates/aegis-ffi/src/lib.rs make it.
use mathlib.Core.Path.{subst}
use aegis_mesh.Base.{◌≡◌, refl, sym, ap, ◌∙◌, inl, inr, arith, true, some, length}
use aegis_mesh.Base.Text.{Bytes, Text}
use aegis_mesh.Crypto.IdentityId.{IdentityId}
use aegis_mesh.Crypto.Primitives.{Ed25519}
use aegis_mesh.Error.{Result, ok, Result-cases}
use aegis_mesh.Messaging.Envelope.{Envelope, IsTyped, Now, now_ns, direct_text}
use aegis_mesh.Messaging.Envelope.Body.{text}
use aegis_mesh.Messaging.Envelope.Id
use aegis_mesh.Messaging.Envelope.Kind.{direct}
use aegis_mesh.Messaging.Envelope.Flags.{has_reserved, with_signed}
use aegis_mesh.Messaging.Envelope.Validate.{validate, is_consistent, is_sized}
use aegis_mesh.Messaging.Envelope.Wire.{Codec, sign, verify, signing_bytes}
use aegis_mesh.Messaging.Envelope.Wire.Signed.{sign-verify}

-- A text from a sender to a recipient, signed by a key.
pub record IsMessage (now : Now) (codec : Codec) (ed : Ed25519) (from : IdentityId) (key : Bytes)
    (recipient : IdentityId) (body : Text) (env : Envelope) : Type 0 where
  pub sender : env.sender ≡ from
  pub addressee : env.recipient ≡ some recipient
  pub content : env.payload ≡ text body
  pub kind : env.kind ≡ direct
  pub id : env.id ≡ Id.new now.id_ns
  pub stamp : env.timestamp_ns ≡ now_ns now.stamp_ns
  pub ttl : env.ttl ≡ 10
  pub hops : env.hops ≡ 0
  pub verified : verify codec ed env key ≡ true

module _ (codec : Codec) (ed : Ed25519) where
  unfoldable pub signed_text :
      Now → IdentityId → Bytes → IdentityId → Text → Envelope × Result (Unit {0})
  signed_text now sender key recipient body =
      sign codec ed (direct_text now sender recipient body 10) key

  marked : Envelope → Bytes → Envelope
  marked env sig = record env { flags = with_signed env.flags; signature = some sig }

  sign_done :
      (env : Envelope) (key : Bytes)
      → (sign codec ed env key).1 ≡ ok tt
      → (sig : Bytes) × ((sign codec ed env key).0 ≡ marked env sig)
  unfolding sign marked
  sign_done env key h =
      elim (Result-cases (signing_bytes codec (record env { flags = with_signed env.flags }))) [
        | inr (e, b) ↦ absurd (ground (arith, b))
        | inl (bytes, b) ↦ (ed.sign key bytes, ground (arith, b))
      ]

  -- Identifiers of 64 bytes make it a valid message from the sender to the recipient.
  pub signed_text_lem :
      (now : Now) (sender : IdentityId) (key : Bytes) (recipient : IdentityId) (body : Text)
      → (signed_text now sender key recipient body).1 ≡ ok tt
      → length sender ≡ 64
      → length recipient ≡ 64
      → IsMessage now codec ed sender
          (ed.verifying_key key)
          recipient
          body
          (signed_text now sender key recipient body).0
        × IsTyped (signed_text now sender key recipient body).0
        × (validate (signed_text now sender key recipient body).0 ≡ ok tt)
  unfolding signed_text marked direct_text validate is_consistent is_sized has_reserved with_signed
  signed_text_lem now sender key recipient body s i r =
      let plain = direct_text now sender recipient body 10 in
      let verified = sign-verify codec ed plain key s in
      let (sig, shape) = sign_done plain key s in
      (
        record {
          sender = ap (λ e. e.sender) shape;
          addressee = ap (λ e. e.recipient) shape;
          content = ap (λ e. e.payload) shape;
          kind = ap (λ e. e.kind) shape;
          id = ap (λ e. e.id) shape;
          stamp = ap (λ e. e.timestamp_ns) shape;
          ttl = ap (λ e. e.ttl) shape;
          hops = ap (λ e. e.hops) shape;
          verified = verified.0;
        },
        subst IsTyped (sym shape) (record {
          version = omega arith;
          timestamp_ns = omega arith;
          ttl = omega arith;
          hops = omega arith;
          priority = omega arith;
          flags = omega arith;
        }),
        ap validate shape ∙ rw (i, r) refl,
      )
