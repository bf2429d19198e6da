-- ===== src/Ffi/Messages.antt =====
-- aegis-mesh/crates/aegis-ffi/src/lib.rs: an identity that was generated, and the messages from it.
use aegis_mesh.Base.{◌≤◌, ◌≡◌, refl, ap, ◌∙◌, inl, inr, arith, length}
use aegis_mesh.Base.Reply.{done}
use aegis_mesh.Base.Text.{Bytes, Text}
use aegis_mesh.Crypto.Aead.{nonce_size}
use aegis_mesh.Crypto.Identity.{
  Identity, Crates, BlobJson, from_mnemonic, to_encrypted_blob, from_encrypted_blob, verifying_key,
}
use aegis_mesh.Crypto.Identity
use aegis_mesh.Crypto.Identity.Blob.{from_encrypted_blob-to_encrypted_blob, from_mnemonic_again}
use aegis_mesh.Crypto.IdentityId.{IdentityId, from_str, from_str-IsCanonical}
use aegis_mesh.Crypto.Primitives.{Argon2, Aes256Gcm, Hex}
use aegis_mesh.Error.{ok, Result-cases}
use aegis_mesh.Messaging.Envelope.{Envelope, Now, max_envelope_size}
use aegis_mesh.Messaging.Envelope.Wire.{Codec, to_bytes, from_bytes, from_bytes-to_bytes}
use aegis_mesh.Messaging.Envelope.Wire.SignedText.{IsMessage, signed_text, signed_text_lem}
use aegis_mesh.Ffi.{
  generate_identity, get_identity_id, get_verifying_key, build_direct_message,
  parse_envelope_sender,
}

module _ (c : Crates) (argon2 : Argon2) (aes : Aes256Gcm) (fields : BlobJson) (hex : Hex)
    (codec : Codec) where
  generate_identity-opens :
      (entropy salt nonce : Bytes) (name passphrase : Text) (blob : Bytes)
      → length salt ≡ 16
      → length nonce ≡ nonce_size
      → generate_identity c argon2 aes fields hex codec entropy salt nonce name passphrase
        ≡ done blob
      → (identity : Identity) × (from_encrypted_blob c argon2 aes fields blob passphrase
          ≡ ok identity)
  unfolding generate_identity Identity.new
  generate_identity-opens entropy salt nonce name passphrase blob s n h =
      elim (Result-cases (from_mnemonic c name (c.bip39.from_entropy entropy))) [
        | inr (e, m) ↦ absurd (ground (arith, m))
        | inl (identity, m) ↦
            elim (Result-cases
              (to_encrypted_blob c argon2 aes fields salt nonce identity passphrase)) [
                | inr (e, b) ↦ absurd (ground (arith, m, b))
                | inl (bytes, b) ↦
                    let same : bytes ≡ blob = ground (arith, m, b) in
                    (
                      identity,
                      from_encrypted_blob-to_encrypted_blob c argon2 aes fields salt nonce identity
                          passphrase blob s n
                          (from_mnemonic_again c name (c.bip39.from_entropy entropy) identity m)
                          (b ∙ ap ok same),
                    )
              ]
      ]

  -- The steps of a message that was built.
  record Built (now : Now) (blob : Bytes) (passphrase to body : Text) (bytes : Bytes)
      (identity : Identity) : Type 0 where
    recipient : IdentityId
    parsed : from_str to ≡ ok recipient
    signed : (signed_text codec c.ed now identity.id identity.signing_key recipient body).1 ≡ ok tt
    made :
        to_bytes codec
          (signed_text codec c.ed now identity.id identity.signing_key recipient body).0
        ≡ ok bytes

  build_direct_message-Built :
      (now : Now) (blob : Bytes) (passphrase to body : Text) (bytes : Bytes) (identity : Identity)
      → from_encrypted_blob c argon2 aes fields blob passphrase ≡ ok identity
      → build_direct_message c argon2 aes fields hex codec now blob passphrase to body ≡ done bytes
      → Built now blob passphrase to body bytes identity
  unfolding build_direct_message signed_text
  build_direct_message-Built now blob passphrase to body bytes identity o h =
      elim (Result-cases (from_str to)) [
        | inr (e, p) ↦ absurd (ground (arith, o, p))
        | inl (id, p) ↦
            elim (Result-cases
              (signed_text codec c.ed now identity.id identity.signing_key id body).1) [
                | inr (e, s) ↦ absurd (ground (arith, o, p, s))
                | inl (_, s) ↦
                    elim (Result-cases (
                      to_bytes codec
                        (signed_text codec c.ed now identity.id identity.signing_key id body).0)) [
                          | inr (e, b) ↦ absurd (ground (arith, o, p, s, b))
                          | inl (out, b) ↦
                              let same : out ≡ bytes = ground (arith, o, p, s, b) in
                              record {
                                recipient = id;
                                parsed = p;
                                signed = s;
                                made = b ∙ ap ok same;
                              }
                        ]
              ]
      ]

  -- From an identity that was generated, the bytes of every message that is built, if they are
  -- within the limit of the wire and the identity has an identifier of 64 bytes, name as their sender
  -- the identifier that the blob gives, and hold a text from it to the parsed recipient, signed by
  -- the key that the blob gives.
  pub parse_envelope_sender-build_direct_message :
      (entropy salt nonce : Bytes) (name passphrase : Text) (blob : Bytes) (now : Now)
      (to body id : Text) (bytes : Bytes)
      → length salt ≡ 16
      → length nonce ≡ nonce_size
      → generate_identity c argon2 aes fields hex codec entropy salt nonce name passphrase
        ≡ done blob
      → get_identity_id c argon2 aes fields hex codec blob passphrase ≡ done id
      → length id ≡ 64
      → build_direct_message c argon2 aes fields hex codec now blob passphrase to body ≡ done bytes
      → length bytes ≤ max_envelope_size
      → (parse_envelope_sender c argon2 aes fields hex codec bytes ≡ done id)
        × ((key : Bytes) × (recipient : IdentityId) × (env : Envelope) × (get_verifying_key c argon2
                aes fields hex codec blob passphrase
              ≡ done key)
            × (from_str to ≡ ok recipient)
            × (from_bytes codec bytes ≡ ok env)
            × IsMessage now codec c.ed id key recipient body env)
  unfolding parse_envelope_sender get_identity_id get_verifying_key verifying_key
  parse_envelope_sender-build_direct_message entropy salt nonce name passphrase blob now to body id
        bytes s n g i l h small =
      let (identity, opens) =
        generate_identity-opens entropy salt nonce name passphrase blob s n g in
      let same : identity.id ≡ id = ground (arith, opens) in
      let k = build_direct_message-Built now blob passphrase to body bytes identity opens h in
      let env = (signed_text codec c.ed now identity.id identity.signing_key k.recipient body).0 in
      let (message, typed, valid) =
        signed_text_lem codec c.ed now identity.id identity.signing_key k.recipient body k.signed
          (ap length same ∙ l) (from_str-IsCanonical to k.recipient k.parsed).sized in
      let read = from_bytes-to_bytes codec env bytes typed valid k.made small in
      (
        rw read (ap done (message.sender ∙ same)),
        (
          verifying_key c identity,
          k.recipient,
          env,
          rw opens refl,
          k.parsed,
          read,
          rw (← same) message,
        ),
      )
