-- ===== src/Crypto/Primitives.antt =====
-- The cryptographic crates that the program calls (ed25519_dalek, sha2, hex), as interfaces. Keys,
-- signatures and digests are their bytes.
use aegis_mesh.Base.{ℕ, ◌+◌, ◌≡◌, Bool, true, Option, some, length}
use aegis_mesh.Base.Text.{Bytes, Text, all_hexdigits}

-- Ed25519: `VerifyingKey::from_bytes` accepts the key of every signer, and a signature verifies
-- under the key of its signer.
pub record Ed25519 : Type 0 where
  pub is_verifying_key : Bytes → Bool
  pub verifying_key : Bytes → Bytes
  pub sign : Bytes → Bytes → Bytes
  pub verify : Bytes → Bytes → Bytes → Bool
  pub verifying_key-valid : (key : Bytes) → is_verifying_key (verifying_key key) ≡ true
  pub sign-verify : (key msg : Bytes) → verify (verifying_key key) msg (sign key msg) ≡ true

-- SHA-256, and `hex::encode`.
pub record Hash : Type 0 where
  pub sha256 : Bytes → Bytes
  pub hex_encode : Bytes → Text

-- X25519: both sides of an exchange get the same bytes.
pub record X25519 : Type 0 where
  pub public_key : Bytes → Bytes
  pub diffie_hellman : Bytes → Bytes → Bytes
  pub agreement : (a b : Bytes) → diffie_hellman a (public_key b) ≡ diffie_hellman b (public_key a)

-- HKDF-SHA256: master, salt, info and the length of the output.
pub record Hkdf : Type 0 where
  pub derive : Bytes → Bytes → Bytes → ℕ → Bytes

-- AES-256-GCM under a key and a nonce: what was encrypted decrypts to itself under the same
-- associated data, and the tag makes the ciphertext sixteen bytes longer.
pub record Aes256Gcm : Type 0 where
  pub encrypt : Bytes → Bytes → Bytes → Bytes → Option Bytes
  pub decrypt : Bytes → Bytes → Bytes → Bytes → Option Bytes
  pub round_trip :
      (key nonce msg aad ct : Bytes)
      → encrypt key nonce msg aad ≡ some ct
      → decrypt key nonce ct aad ≡ some msg
  pub tag :
      (key nonce msg aad ct : Bytes)
      → encrypt key nonce msg aad ≡ some ct
      → length ct ≡ length msg + 16

-- BIP39: a mnemonic is its canonical sentence. The sentence of 32 random bytes parses, and the
-- canonical sentence of a mnemonic parses to that mnemonic.
pub record Bip39 : Type 0 where
  pub from_entropy : Bytes → Text
  pub parse_normalized : Text → Option Text
  pub to_seed : Text → Bytes
  pub from_entropy-parse :
      (entropy : Bytes)
      → length entropy ≡ 32
      → parse_normalized (from_entropy entropy) ≡ some (from_entropy entropy)
  pub parse_normalized_idem :
      (sentence mnemonic : Text)
      → parse_normalized sentence ≡ some mnemonic
      → parse_normalized mnemonic ≡ some mnemonic

-- Argon2id of a passphrase and a salt, with the parameters of the program.
pub record Argon2 : Type 0 where
  pub hash_password_into : Text → Bytes → Option Bytes

-- The hex crate over characters: what is encoded has two digits for each byte, and decodes to itself.
pub record Hex : Type 0 where
  pub encode_upper : Bytes → Text
  pub decode : Text → Option Bytes
  pub encode_upper-decode : (bytes : Bytes) → decode (encode_upper bytes) ≡ some bytes
  pub encode_upper-digits : (bytes : Bytes) → all_hexdigits (encode_upper bytes) ≡ true
