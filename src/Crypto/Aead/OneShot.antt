-- ===== src/Crypto/Aead/OneShot.antt =====
-- aegis-mesh/crates/aegis-core/src/crypto/aead.rs: keys from passphrases, and the blobs of the data
-- at rest. Argon2 and the cipher are parameters, and a random nonce is an argument.
use aegis_mesh.Base.{◌+◌, ◌≡◌, [], ltb, length, if◌then◌else◌}
use aegis_mesh.Base.Text.{Bytes, Text}
use aegis_mesh.Crypto.Aead.{nonce_size, tag_size, seal, unseal}
use aegis_mesh.Crypto.Aead.RoundTrip.{seal-unseal, length-seal}
use aegis_mesh.Crypto.Primitives.{Aes256Gcm, Argon2}
use aegis_mesh.Error.{Result, ok, err, ok_or, crypto, invalid}

unfoldable pub derive_key : Argon2 → Text → Bytes → Result Bytes
derive_key argon2 passphrase salt =
    if ltb (length salt) 16
    then err invalid
    else ok_or (argon2.hash_password_into passphrase salt) crypto

module _ (aes : Aes256Gcm) where
  unfoldable pub encrypt : Bytes → Bytes → Bytes → Result Bytes
  encrypt nonce key plaintext = seal aes key nonce plaintext []

  unfoldable pub decrypt : Bytes → Bytes → Result Bytes
  decrypt key blob = unseal aes key blob []

  pub encrypt-decrypt_once :
      (nonce key plaintext blob : Bytes)
      → length nonce ≡ nonce_size
      → encrypt nonce key plaintext ≡ ok blob
      → decrypt key blob ≡ ok plaintext
  unfolding encrypt decrypt
  encrypt-decrypt_once nonce key plaintext blob n h =
      seal-unseal aes key nonce plaintext [] blob n h

  pub length-encrypt_once :
      (nonce key plaintext blob : Bytes)
      → length nonce ≡ nonce_size
      → encrypt nonce key plaintext ≡ ok blob
      → length blob ≡ nonce_size + length plaintext + tag_size
  unfolding encrypt
  length-encrypt_once nonce key plaintext blob n h = length-seal aes key nonce plaintext [] blob n h
