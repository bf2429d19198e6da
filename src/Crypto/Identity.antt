-- ===== src/Crypto/Identity.antt =====
-- aegis-mesh/crates/aegis-core/src/crypto/identity.rs: the identity of a node, from its mnemonic to
-- the encrypted blob on the disk. BIP39, HMAC-SHA512, Ed25519, Argon2, AES-GCM and JSON are
-- parameters; what the code draws at random is an argument.
pub mod Blob
pub mod Binding
use aegis_mesh.Base.{
  ℕ, ◌+◌, Bool, true, false, Option, none, some, [], ◌∷◌, ◌++◌, take, drop, length, ltb, ◌==◌,
  nat_eq, list_eq, ◌≡◌, if◌then◌else◌,
}
use aegis_mesh.Base.Text.{Bytes, Text, codes}
use aegis_mesh.Crypto.Aead.{encrypt_with_aad, decrypt_with_aad}
use aegis_mesh.Crypto.Aead.OneShot.{derive_key}
use aegis_mesh.Crypto.Fingerprint.{Fingerprint, from_public_key}
use aegis_mesh.Crypto.IdentityId.{IdentityId}
use aegis_mesh.Crypto.KeyAgreement.{ed25519_to_x25519_secret}
use aegis_mesh.Crypto.Primitives.{Ed25519, Hash, Bip39, Argon2, Aes256Gcm}
use aegis_mesh.Error.{Result, ok, err, ok_or, ◌>>=◌, ◌>>◌, ensure, crypto, invalid, json}

pub record Identity : Type 0 where
  pub display_name : Text
  pub mnemonic : Text
  pub signing_key : Bytes
  pub id : IdentityId

pub record PublicIdentity : Type 0 where
  pub id : IdentityId
  pub display_name : Text
  pub verifying_key : Bytes

-- The crates that make an identity, and the conversion of verifying keys to X25519.
pub record Crates : Type 0 where
  pub ed : Ed25519
  pub hash : Hash
  pub bip39 : Bip39
  pub hmac_sha512 : Bytes → Bytes → Bytes
  pub sha512 : Bytes → Bytes
  pub to_montgomery : Bytes → Bytes

-- The fields that are read from the JSON of a blob.
pub record BlobFields : Type 0 where
  pub display_name : Option Text
  pub mnemonic : Option Text

-- serde_json at the object of a blob: the version, the display name and the mnemonic.
pub record BlobJson : Type 0 where
  pub to_vec : ℕ → Text → Text → Option Bytes
  pub from_slice : Bytes → Option BlobFields
  pub round_trip :
      (version : ℕ) (display_name mnemonic : Text) (bytes : Bytes)
      → to_vec version display_name mnemonic ≡ some bytes
      → from_slice bytes
        ≡ some (record { display_name = some display_name; mnemonic = some mnemonic })

module _ (c : Crates) where
  unfoldable pub from_bytes : Bytes → IdentityId
  from_bytes bytes = c.hash.hex_encode bytes

  unfoldable pub derive_id : Bytes → IdentityId
  unfolding from_bytes
  derive_id verifying = from_bytes (c.hash.sha256 verifying)

  -- SLIP-0010: the first half of the HMAC of the seed.
  unfoldable pub slip_secret : Text → Bytes
  slip_secret mnemonic = take 32 (c.hmac_sha512 (codes "ed25519 seed") (c.bip39.to_seed mnemonic))

  unfoldable pub from_mnemonic : Text → Text → Result Identity
  from_mnemonic display_name sentence = do
    mnemonic ← ok_or (c.bip39.parse_normalized sentence) crypto
    let signing_key = slip_secret mnemonic
    ok (record {
      display_name = display_name;
      mnemonic = mnemonic;
      signing_key = signing_key;
      id = derive_id (c.ed.verifying_key signing_key);
    })

  -- The code panics on an error.
  unfoldable pub new : Bytes → Text → Result Identity
  new entropy display_name = from_mnemonic display_name (c.bip39.from_entropy entropy)

  unfoldable pub verifying_key : Identity → Bytes
  verifying_key identity = c.ed.verifying_key identity.signing_key

  unfoldable pub sign : Identity → Bytes → Bytes
  sign identity msg = c.ed.sign identity.signing_key msg

  unfoldable pub verify : Identity → Bytes → Bytes → Bool
  verify identity msg sig = c.ed.verify (verifying_key identity) msg sig

  unfoldable pub x25519_static_secret : Identity → Bytes
  x25519_static_secret identity = ed25519_to_x25519_secret c.sha512 identity.signing_key

  unfoldable pub x25519_static_public : Identity → Bytes
  x25519_static_public identity = c.to_montgomery (verifying_key identity)

  unfoldable pub fingerprint : Identity → Fingerprint
  fingerprint identity = from_public_key c.hash (verifying_key identity)

  unfoldable pub public_view : Identity → PublicIdentity
  public_view identity = record {
    id = identity.id;
    display_name = identity.display_name;
    verifying_key = verifying_key identity;
  }

  -- `PublicIdentity::verify`
  unfoldable pub verify_public : PublicIdentity → Bytes → Bytes → Bool
  verify_public p msg sig =
      if c.ed.is_verifying_key p.verifying_key then c.ed.verify p.verifying_key msg sig else false

  unfoldable pub verify_id_binding : PublicIdentity → Bool
  verify_id_binding p = c.hash.hex_encode (c.hash.sha256 p.verifying_key) == p.id

  module _ (argon2 : Argon2) (aes : Aes256Gcm) (fields : BlobJson) where
    unfoldable pub to_encrypted_blob : Bytes → Bytes → Identity → Text → Result Bytes
    to_encrypted_blob salt nonce identity passphrase = do
      payload ← ok_or (fields.to_vec 1 identity.display_name identity.mnemonic) json
      key ← derive_key argon2 passphrase salt
      ct ← encrypt_with_aad aes nonce key payload (codes "aegis-identity-blob-v1")
      ok (1 ∷ (salt ++ ct))

    -- A blob behind its version byte.
    unfoldable pub open_body : Bytes → Text → Result Identity
    open_body body passphrase = do
      key ← derive_key argon2 passphrase (take 16 body)
      plaintext ← decrypt_with_aad aes key (drop 16 body) (codes "aegis-identity-blob-v1")
      payload ← ok_or (fields.from_slice plaintext) json
      display_name ← ok_or payload.display_name invalid
      mnemonic ← ok_or payload.mnemonic invalid
      from_mnemonic display_name mnemonic

    unfoldable pub from_encrypted_blob : Bytes → Text → Result Identity
    from_encrypted_blob [] passphrase = err invalid
    from_encrypted_blob (version ∷ body) passphrase =
        if ltb (length (version ∷ body)) (1 + 16 + 12 + 16)
        then err invalid
        else if version == 1
        then open_body body passphrase
        else err invalid
