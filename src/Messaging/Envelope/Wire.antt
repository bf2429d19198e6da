-- ===== src/Messaging/Envelope/Wire.antt =====
-- aegis-mesh/crates/aegis-core/src/messaging/envelope.rs: `to_bytes`, `from_bytes`, `sign` and
-- `verify`. JSON (serde_json) and signatures (ed25519_dalek) are parameters.
pub mod Signed
pub mod SignedText
use aegis_mesh.Base.{
  ℕ, ◌≤◌, ◌≡◌, refl, ◌↔◌, Bool, true, false, Option, none, some, arith, length, ltb, if◌then◌else◌,
}
use aegis_mesh.Base.Text.{Bytes}
use aegis_mesh.Crypto.Primitives.{Ed25519}
use aegis_mesh.Error.{Result, ok, err, ◌>>=◌, ◌>>◌, ok_or, invalid, json}
use aegis_mesh.Messaging.Envelope.Flags.{with_signed}
use aegis_mesh.Messaging.Envelope.Validate.{validate}
use aegis_mesh.Messaging.Envelope.{Envelope, IsTyped, max_envelope_size}

-- `serde_json::to_vec` and `from_slice` at the derived format of `Envelope`: what was written
-- reads back as it was.
pub record Codec : Type 0 where
  pub to_vec : Envelope → Option Bytes
  pub from_slice : Bytes → Option Envelope
  pub round_trip :
      (e : Envelope) (b : Bytes) → IsTyped e → to_vec e ≡ some b → from_slice b ≡ some e

module _ (codec : Codec) where
  unfoldable pub to_bytes : Envelope → Result Bytes
  to_bytes env = ok_or (codec.to_vec env) json

  unfoldable pub from_bytes : Bytes → Result Envelope
  from_bytes b =
      if ltb max_envelope_size (length b)
      then err invalid
      else (do env ← ok_or (codec.from_slice b) json; validate env; ok env)

  unfoldable pub signing_bytes : Envelope → Result Bytes
  signing_bytes env = ok_or (codec.to_vec (record env { signature = none })) json

  -- A byte string is accepted exactly when it is no longer than the limit and holds an envelope
  -- that validates.
  pub from_bytes_iff :
      (b : Bytes) (env : Envelope)
      → (from_bytes b ≡ ok env) ↔ (
          (length b ≤ max_envelope_size) × (codec.from_slice b ≡ some env) × (validate env ≡ ok tt))
  unfolding from_bytes
  from_bytes_iff b env = (λ h. ground arith, λ h. ground arith)

  -- An envelope with fields of their machine types that validates is read back from its own bytes,
  -- if they are within the limit.
  pub from_bytes-to_bytes :
      (env : Envelope) (b : Bytes)
      → IsTyped env
      → validate env ≡ ok tt
      → to_bytes env ≡ ok b
      → length b ≤ max_envelope_size
      → from_bytes b ≡ ok env
  unfolding from_bytes to_bytes
  from_bytes-to_bytes env b typed valid e small = ground (arith, codec.round_trip env b typed)

  module _ (ed : Ed25519) where
    -- The flag is set also when the bytes cannot be made.
    unfoldable pub sign : Envelope → Bytes → Envelope × Result (Unit {0})
    sign env key =
        let marked = record env { flags = with_signed env.flags } in
        elim (signing_bytes marked) [
          | err e ↦ (marked, err e)
          | ok b ↦ (record marked { signature = some (ed.sign key b) }, ok tt)
        ]

    unfoldable pub verify : Envelope → Bytes → Bool
    verify env key = elim env.signature [
      | none ↦ false
      | some sig ↦ elim (signing_bytes env) [ err e ↦ false | ok b ↦ ed.verify key b sig ]
    ]
