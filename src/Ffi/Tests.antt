-- ===== src/Ffi/Tests.antt =====
-- The theorem on aegis-mesh/crates/aegis-ffi/src/lib.rs at concrete values.
use native.Mathlib.Decide.{ℕ_discrete}
use aegis_mesh.Base.{◌≡◌, refl, [], ◌∷◌, arith}
use aegis_mesh.Base.Reply.{done}
use aegis_mesh.Base.Text.{
  Bytes, codes, all_hexdigits, is_ascii_hexdigit, to_lowercase, lowercase_byte, hex_padded,
}
use aegis_mesh.Crypto.Aead.{encrypt_with_aad, decrypt_with_aad, seal, unseal}
use aegis_mesh.Crypto.Aead.OneShot.{derive_key}
use aegis_mesh.Crypto.Identity.{
  slip_secret, derive_id, from_bytes, from_mnemonic, to_encrypted_blob, from_encrypted_blob,
  open_body,
}
use aegis_mesh.Crypto.Identity
use aegis_mesh.Crypto.IdentityId.{IdentityId, from_str}
use aegis_mesh.Error.{ok}
use aegis_mesh.Messaging.Envelope.{Envelope, direct_text}
use aegis_mesh.Messaging.Envelope.Id
use aegis_mesh.Messaging.Envelope.Flags.{with_signed}
use aegis_mesh.Messaging.Envelope.Wire.{sign, signing_bytes, to_bytes}
use aegis_mesh.Messaging.Envelope.Wire
use aegis_mesh.Messaging.Envelope.Wire.SignedText.{IsMessage}
use aegis_mesh.Samples.{bob, plain_aes, Envelope-discrete, EnvelopeType-discrete, Payload-discrete}
use aegis_mesh.Samples.Identities.{
  plain_argon2, wide_crates, short_json, unary_hex, anna_id, anna_key, anna_salt, anna_nonce,
  anna_blob, noon, greeting_codec,
}
use aegis_mesh.Ffi.{
  generate_identity, get_identity_id, get_verifying_key, build_direct_message,
  parse_envelope_sender,
}
use aegis_mesh.Ffi.Messages.{parse_envelope_sender-build_direct_message}

generated :
    generate_identity wide_crates plain_argon2 plain_aes short_json unary_hex greeting_codec
      anna_key anna_salt anna_nonce
      (b'A' ∷ [])
      (codes "pass")
    ≡ done anna_blob
unfolding generate_identity Identity.new from_mnemonic slip_secret derive_id from_bytes
    to_encrypted_blob derive_key encrypt_with_aad seal
generated = refl

identified :
    get_identity_id wide_crates plain_argon2 plain_aes short_json unary_hex greeting_codec anna_blob
      (codes "pass")
    ≡ done anna_id
unfolding get_identity_id from_encrypted_blob open_body from_mnemonic slip_secret derive_id
    from_bytes derive_key decrypt_with_aad unseal
identified = refl

built :
    build_direct_message wide_crates plain_argon2 plain_aes short_json unary_hex greeting_codec noon
      anna_blob
      (codes "pass")
      bob
      (codes "hi")
    ≡ done (1 ∷ [])
unfolding build_direct_message from_encrypted_blob open_body from_mnemonic slip_secret derive_id
    from_bytes derive_key decrypt_with_aad unseal from_str all_hexdigits is_ascii_hexdigit
    to_lowercase lowercase_byte sign signing_bytes to_bytes direct_text with_signed
    Envelope-discrete ℕ_discrete EnvelopeType-discrete Payload-discrete Id.new hex_padded
built = refl

parse_envelope_sender-build_direct_message_example :
    (parse_envelope_sender wide_crates plain_argon2 plain_aes short_json unary_hex greeting_codec
        (1 ∷ [])
      ≡ done anna_id)
    × ((key : Bytes) × (recipient : IdentityId) × (env : Envelope) × (get_verifying_key wide_crates
            plain_argon2 plain_aes short_json unary_hex greeting_codec anna_blob
            (codes "pass")
          ≡ done key)
        × (from_str bob ≡ ok recipient)
        × (Wire.from_bytes greeting_codec (1 ∷ []) ≡ ok env)
        × IsMessage noon greeting_codec wide_crates.ed anna_id key recipient (codes "hi") env)
parse_envelope_sender-build_direct_message_example =
    parse_envelope_sender-build_direct_message wide_crates plain_argon2 plain_aes short_json
      unary_hex greeting_codec anna_key anna_salt anna_nonce (b'A' ∷ []) (codes "pass") anna_blob
      noon bob (codes "hi") anna_id (1 ∷ []) refl refl generated identified refl built (omega arith)
