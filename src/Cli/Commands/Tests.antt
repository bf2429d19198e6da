-- ===== src/Cli/Commands/Tests.antt =====
-- The theorems on the commands of aegis-mesh/crates/aegis-cli/src/commands at concrete values.
use native.Mathlib.Decide.{ℕ_discrete}
use aegis_mesh.Base.{ℕ, ◌≡◌, refl, true, false, none, some, List, [], ◌∷◌, ◌++◌, replicate, arith}
use aegis_mesh.Base.Reply.{done}
use aegis_mesh.Base.Text.{
  Bytes, codes, all_hexdigits, is_ascii_hexdigit, to_lowercase, lowercase_byte, hex_padded,
  be_bytes,
}
use aegis_mesh.Config.{written, secure_write}
use aegis_mesh.Crypto.Aead.{encrypt_with_aad, decrypt_with_aad, seal, unseal}
use aegis_mesh.Crypto.Aead.OneShot.{derive_key}
use aegis_mesh.Crypto.Identity.{
  Identity, fingerprint, slip_secret, derive_id, from_bytes, from_mnemonic, to_encrypted_blob,
  from_encrypted_blob, open_body,
}
use aegis_mesh.Crypto.Identity
use aegis_mesh.Crypto.IdentityId.{IdentityId, from_str}
use aegis_mesh.Error.{ok}
use aegis_mesh.Messaging.Envelope.{Envelope, direct_text}
use aegis_mesh.Messaging.Envelope.Id
use aegis_mesh.Messaging.Envelope.Flags.{with_signed}
use aegis_mesh.Messaging.Envelope.Wire.{sign, signing_bytes, to_bytes}
use aegis_mesh.Messaging.Envelope.Wire.SignedText.{IsMessage}
use aegis_mesh.Samples.{bob, plain_aes, Envelope-discrete, EnvelopeType-discrete, Payload-discrete}
use aegis_mesh.Samples.Identities.{
  plain_argon2, wide_crates, short_json, unary_hex, anna, anna_id, anna_key, anna_salt, anna_nonce,
  anna_blob, noon, greeting_codec,
}
use aegis_mesh.Transport.Loopback.{loopback_frame, handle_client}
use aegis_mesh.Cli.Commands.{
  Answers, Line, name_line, mnemonic_line, sent_line, key_lines, read_identity_blob,
  write_identity_blob, made, create, unlocked, reveal, restored, import,
}
use aegis_mesh.Cli.Commands.Recovery.{import-create}
use aegis_mesh.Cli.Commands.Send.{write_all, composed, send}
use aegis_mesh.Base.Map
use aegis_mesh.Mesh.Router
use aegis_mesh.Cli.Serve
use aegis_mesh.Cli.Serve.{Node}
use aegis_mesh.Cli.Commands.Start.{ServeCmd}
use aegis_mesh.Cli.Commands.Send.Delivery.{handle_client-send}

abbrev answers : Answers
answers = record {
  passphrase = some (codes "password");
  mnemonic = some anna_key;
  is_readable = true;
  write = written;
  entropy = anna_key;
  salt = anna_salt;
  nonce = anna_nonce;
  entropy_size = refl;
  salt_size = refl;
  nonce_size = refl;
}

abbrev anna_lines : List Line
anna_lines = key_lines wide_crates plain_argon2 plain_aes short_json unary_hex anna

abbrev name : Bytes
name = b'A' ∷ []

created :
    create wide_crates plain_argon2 plain_aes short_json unary_hex answers name none
    ≡ (some anna_blob, done (name_line name ∷ anna_lines))
unfolding create made write_identity_blob secure_write Identity.new from_mnemonic slip_secret
    derive_id from_bytes to_encrypted_blob derive_key encrypt_with_aad seal
created = refl

opened :
    unlocked wide_crates plain_argon2 plain_aes short_json unary_hex answers (some anna_blob)
    ≡ done anna
unfolding unlocked read_identity_blob from_encrypted_blob open_body from_mnemonic slip_secret
    derive_id from_bytes derive_key decrypt_with_aad unseal
opened = refl

revealed :
    reveal wide_crates plain_argon2 plain_aes short_json unary_hex answers (some anna_blob)
    ≡ done (mnemonic_line anna_key ∷ [])
unfolding reveal
revealed = rw opened refl

abbrev other_blob : Bytes
other_blob = 1 ∷ (anna_salt ++ (anna_nonce ++ (b'B' ∷ (anna_key ++ replicate 16 0))))

-- The import on a device that has no identity, under another name.
imported :
    import wide_crates plain_argon2 plain_aes short_json unary_hex answers (b'B' ∷ []) none
    ≡ (some other_blob, done anna_lines)
unfolding fingerprint Identity.verifying_key import restored write_identity_blob secure_write
    from_mnemonic slip_secret derive_id from_bytes to_encrypted_blob derive_key encrypt_with_aad
    seal
imported = refl

import-create_example : name_line name ∷ anna_lines ≡ name_line name ∷ anna_lines
import-create_example =
    import-create wide_crates plain_argon2 plain_aes short_json unary_hex answers answers answers
      name (b'B' ∷ []) anna_key anna_blob none (some other_blob) (name_line name ∷ anna_lines)
      anna_lines created refl refl revealed refl imported

abbrev stream : Bytes
stream = 0 ∷ 0 ∷ 0 ∷ 1 ∷ 1 ∷ []

sent_greeting :
    send wide_crates plain_argon2 plain_aes short_json unary_hex greeting_codec answers noon bob
      (some (codes "hi"))
      (ok tt)
      written
      (some anna_blob)
    ≡ (stream, done (sent_line bob 1 ∷ []))
unfolding unlocked read_identity_blob from_encrypted_blob open_body from_mnemonic slip_secret
    derive_id from_bytes derive_key decrypt_with_aad unseal send composed write_all loopback_frame
    from_str all_hexdigits is_ascii_hexdigit to_lowercase lowercase_byte sign signing_bytes to_bytes
    direct_text with_signed Envelope-discrete ℕ_discrete EnvelopeType-discrete Payload-discrete
    Id.new hex_padded be_bytes
sent_greeting = refl

handle_client-send_example :
    (recipient : IdentityId) × (from_str bob ≡ ok recipient)
    × ((env : Envelope) × (handle_client greeting_codec stream ≡ env ∷ [])
        × IsMessage noon greeting_codec wide_crates.ed anna_id anna_key recipient (codes "hi") env)
unfolding Identity.verifying_key
handle_client-send_example =
    handle_client-send wide_crates plain_argon2 plain_aes short_json unary_hex greeting_codec
      answers noon bob (codes "hi") (ok tt) written (some anna_blob) anna stream
      (sent_line bob 1 ∷ []) opened refl sent_greeting (omega arith)

abbrev first_byte : Bytes → ℕ
first_byte [] = 0
first_byte (b ∷ s) = b

-- The identity of Bob, whose key is 32 times the digit b, and its file.
abbrev bob_identity : Identity
bob_identity = record {
  display_name = b'B' ∷ [];
  mnemonic = replicate 32 b'b';
  signing_key = replicate 32 b'b';
  id = bob;
}

abbrev bob_blob : Bytes
bob_blob = 1 ∷ (anna_salt ++ (anna_nonce ++ (b'B' ∷ (replicate 32 b'b' ++ replicate 16 0))))

-- A node with the loopback transport.
abbrev only_loopback : ServeCmd
only_loopback = record { has_loopback = true; has_lora = false; has_ble = false }

abbrev bob_node : Node
bob_node = Serve.new bob (replicate 32 b'b') (replicate 32 b'b') 1
