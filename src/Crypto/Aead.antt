-- ===== src/Crypto/Aead.antt =====
-- aegis-mesh/crates/aegis-core/src/crypto/aead.rs: the blobs of AES-256-GCM, a nonce in front of the
-- ciphertext, and the cipher that counts its nonces. The cipher is a parameter, and a random nonce
-- is an argument.
pub mod RoundTrip
pub mod OneShot
use aegis_mesh.Base.{
  ℕ, ◌+◌, ◌%◌, ◌^◌, Bool, Option, none, some, List, [], ◌∷◌, ◌++◌, ltb, length, take, drop,
  if◌then◌else◌,
}
use aegis_mesh.Base.Text.{Bytes, be_bytes}
use aegis_mesh.Crypto.Primitives.{Aes256Gcm, Hkdf}
use aegis_mesh.Error.{Result, ok, err, ok_or, ◌>>=◌, ◌>>◌, crypto, invalid}

abbrev pub key_size : ℕ
key_size = 32

abbrev pub nonce_size : ℕ
nonce_size = 12

abbrev pub tag_size : ℕ
tag_size = 16

-- A cipher with its key and its counter.
pub record AeadCipher : Type 0 where
  pub key : Bytes
  pub counter : ℕ

unfoldable pub new : Bytes → AeadCipher
new key = record { key = key; counter = 0 }

-- `fetch_add` on the 64-bit counter wraps around.
unfoldable pub next_nonce : AeadCipher → AeadCipher × Bytes
next_nonce cipher = (
  record cipher { counter = (cipher.counter + 1) % 2 ^ 64 },
  0 ∷ 0 ∷ 0 ∷ 0 ∷ be_bytes 8 cipher.counter,
)

module _ (aes : Aes256Gcm) where
  -- The nonce and the ciphertext.
  unfoldable pub seal : Bytes → Bytes → Bytes → Bytes → Result Bytes
  seal key nonce plaintext aad = do
    ct ← ok_or (aes.encrypt key nonce plaintext aad) crypto
    ok (nonce ++ ct)

  unfoldable pub unseal : Bytes → Bytes → Bytes → Result Bytes
  unseal key blob aad =
      if ltb (length blob) (nonce_size + tag_size)
      then err invalid
      else ok_or (aes.decrypt key (take nonce_size blob) (drop nonce_size blob) aad) crypto

  unfoldable pub encrypt : AeadCipher → Bytes → Bytes → AeadCipher × Result Bytes
  encrypt cipher plaintext aad =
      let (after, nonce) = next_nonce cipher in (after, seal cipher.key nonce plaintext aad)

  unfoldable pub decrypt : AeadCipher → Bytes → Bytes → Result Bytes
  decrypt cipher blob aad = unseal cipher.key blob aad

  unfoldable pub encrypt_with_aad : Bytes → Bytes → Bytes → Bytes → Result Bytes
  encrypt_with_aad nonce key plaintext aad = seal key nonce plaintext aad

  unfoldable pub decrypt_with_aad : Bytes → Bytes → Bytes → Result Bytes
  decrypt_with_aad key blob aad = unseal key blob aad
