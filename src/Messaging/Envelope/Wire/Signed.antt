-- ===== src/Messaging/Envelope/Wire/Signed.antt =====
-- aegis-mesh/crates/aegis-core/src/messaging/envelope.rs: what a signature covers, and what a relay
-- makes of it.
use aegis_mesh.Base.{
  ℕ, ◌<◌, ◌≡◌, ◌≢◌, sym, ap, ◌∙◌, true, false, none, some, arith, Option-cases, Bool-cases, inl,
  inr,
}
use aegis_mesh.Base.Text.{Bytes}
use aegis_mesh.Crypto.Primitives.{Ed25519}
use aegis_mesh.Error.{ok, Result-cases}
use aegis_mesh.Messaging.Envelope.Relay.{advance_ttl-SameMessage}
use aegis_mesh.Messaging.Envelope.Flags.{
  has_reserved-with_signed, is_signed, with_signed, is_signed-with_signed,
}
use aegis_mesh.Messaging.Envelope.{Envelope, IsTyped, advance_ttl}
use aegis_mesh.Messaging.Envelope.Wire.{Codec, signing_bytes, sign, verify}

advance_ttl-IsTyped :
    (env : Envelope) (max_hops : ℕ) → IsTyped env → IsTyped (advance_ttl env max_hops).0
unfolding advance_ttl
advance_ttl-IsTyped env max_hops t = ground arith

advance_ttl_falls :
    (env : Envelope) (max_hops : ℕ)
    → (advance_ttl env max_hops).1 ≡ true
    → (advance_ttl env max_hops).0.ttl < env.ttl
unfolding advance_ttl
advance_ttl_falls env max_hops e = ground arith

module _ (codec : Codec) where
  signing_bytes-read :
      (env : Envelope) (b : Bytes)
      → IsTyped env
      → signing_bytes codec env ≡ ok b
      → codec.from_slice b ≡ some (record env { signature = none })
  unfolding signing_bytes
  signing_bytes-read env b t e = ground (
    arith,
    codec.round_trip (record env { signature = none }) b
        (record {
          version = t.version;
          timestamp_ns = t.timestamp_ns;
          ttl = t.ttl;
          hops = t.hops;
          priority = t.priority;
          flags = t.flags;
        }),
  )

  -- The bytes to sign are canonical: two envelopes have the same bytes only if they agree in every
  -- field but the signature.
  pub signing_bytes-injective :
      (a b : Envelope) (m : Bytes)
      → IsTyped a
      → IsTyped b
      → signing_bytes codec a ≡ ok m
      → signing_bytes codec b ≡ ok m
      → ◌≡◌ {A = Envelope} (record a { signature = none }) (record b { signature = none })
  signing_bytes-injective a b m ta tb ea eb =
      ground (arith, signing_bytes-read a m ta ea, signing_bytes-read b m tb eb)

  -- A relay that passes an envelope on always changes the bytes that its signature is over.
  pub signing_bytes-advance_ttl :
      (env : Envelope) (max_hops : ℕ) (m m' : Bytes)
      → IsTyped env
      → (advance_ttl env max_hops).1 ≡ true
      → signing_bytes codec env ≡ ok m
      → signing_bytes codec (advance_ttl env max_hops).0 ≡ ok m'
      → m ≢ m'
  signing_bytes-advance_ttl env max_hops m m' t passed e e' same =
      let b = (advance_ttl env max_hops).0 in
      let equal =
        signing_bytes-injective env b m t (advance_ttl-IsTyped env max_hops t) e (rw same e') in
      absurd
        (omega (arith, ap (λ (x : Envelope). x.ttl) equal, advance_ttl_falls env max_hops passed))

  abbrev marked : Envelope → Envelope
  marked env = record env { flags = with_signed env.flags; signature = none }

  module _ (ed : Ed25519) where
    -- What `sign` signs, `verify` accepts under the signer's key, and the envelope is marked.
    pub sign-verify :
        (env : Envelope) (key : Bytes)
        → (sign codec ed env key).1 ≡ ok tt
        → (verify codec ed (sign codec ed env key).0 (ed.verifying_key key) ≡ true)
          × (is_signed (sign codec ed env key).0.flags ≡ true)
    unfolding sign verify signing_bytes
    sign-verify env key h = elim (Option-cases (codec.to_vec (marked env))) [
      | inl e ↦ ground (arith, e)
      | inr (b, e) ↦ ground (arith, e, ed.sign-verify key b, is_signed-with_signed env.flags)
    ]

    sign_shape :
        (env : Envelope) (key : Bytes)
        → (sign codec ed env key).1 ≡ ok tt
        → (b : Bytes) × (signing_bytes codec (sign codec ed env key).0 ≡ ok b)
          × ((sign codec ed env key).0.signature ≡ some (ed.sign key b))
    unfolding sign signing_bytes
    sign_shape env key h = elim (Option-cases (codec.to_vec (marked env))) [
      | inl e ↦ absurd (ground (arith, e))
      | inr (b, e) ↦ (b, ground (arith, e), ground (arith, e))
    ]

    sign-IsTyped : (env : Envelope) (key : Bytes) → IsTyped env → IsTyped (sign codec ed env key).0
    unfolding sign
    sign-IsTyped env key t = ground (arith, has_reserved-with_signed env.flags t.flags)

    verify-eq-false :
        (env : Envelope) (key sig : Bytes)
        → env.signature ≡ some sig
        → ((m : Bytes) → signing_bytes codec env ≡ ok m → ed.verify key m sig ≡ false)
        → verify codec ed env key ≡ false
    unfolding verify
    verify-eq-false env key sig e h = elim (Result-cases (signing_bytes codec env)) [
      | inl (m, q) ↦ ground (arith, e, q, h m q)
      | inr (c, q) ↦ ground (arith, e, q)
    ]

    -- A signature is bound to its message: it verifies over no other.
    module _
        (binding : (key m m' : Bytes)
          → ed.verify (ed.verifying_key key) m' (ed.sign key m) ≡ true
          → m ≡ m') where
      -- So the signature of an envelope no longer verifies once a relay has passed the envelope on.
      pub verify-advance_ttl :
          (env : Envelope) (key : Bytes) (max_hops : ℕ)
          → IsTyped env
          → (sign codec ed env key).1 ≡ ok tt
          → (advance_ttl (sign codec ed env key).0 max_hops).1 ≡ true
          → verify codec ed
              (advance_ttl (sign codec ed env key).0 max_hops).0
              (ed.verifying_key key)
            ≡ false
      verify-advance_ttl env key max_hops t h passed =
          let s = (sign codec ed env key).0 in
          let (b, eb, es) = sign_shape env key h in
          verify-eq-false (advance_ttl s max_hops).0 (ed.verifying_key key) (ed.sign key b)
            (sym (advance_ttl-SameMessage s max_hops).signature ∙ es)
            λ m em. elim (Bool-cases (ed.verify (ed.verifying_key key) m (ed.sign key b))) [
              | inr no_match ↦ no_match
              | inl match ↦ absurd (
                  signing_bytes-advance_ttl s max_hops b m (sign-IsTyped env key t) passed eb em
                    (binding key b m match))
            ]
