-- ===== src/Crypto/Identity/Blob.antt =====
-- aegis-mesh/crates/aegis-core/src/crypto/identity.rs: the encrypted blob of an identity.
use aegis_mesh.Base.{
  ◌+◌, ◌≡◌, sym, ap, ◌∙◌, arith, false, some, ◌∷◌, ◌++◌, take, drop, take-append, drop-append,
  length, length-append, ltb, nat_eq, Option-cases, inl, inr,
}
use aegis_mesh.Base.Text.{Bytes, Text, codes}
use aegis_mesh.Crypto.Aead.{nonce_size, encrypt_with_aad}
use aegis_mesh.Crypto.Aead.OneShot.{derive_key}
use aegis_mesh.Crypto.Aead.RoundTrip.{encrypt_with_aad-decrypt_with_aad, length-encrypt_with_aad}
use aegis_mesh.Crypto.Primitives.{Argon2, Aes256Gcm}
use aegis_mesh.Error.{ok, Result-cases}
use aegis_mesh.Crypto.Identity.{
  Identity, Crates, BlobJson, from_mnemonic, to_encrypted_blob, open_body, from_encrypted_blob,
}

module _ (c : Crates) (argon2 : Argon2) (aes : Aes256Gcm) (fields : BlobJson) where
  abbrev label : Bytes
  label = codes "aegis-identity-blob-v1"

  -- The parts of a blob that was made.
  record Parts (salt nonce : Bytes) (identity : Identity) (passphrase : Text) (blob : Bytes)
      : Type 0 where
    payload : Bytes
    key : Bytes
    ct : Bytes
    written : fields.to_vec 1 identity.display_name identity.mnemonic ≡ some payload
    derived : derive_key argon2 passphrase salt ≡ ok key
    sealed : encrypt_with_aad aes nonce key payload label ≡ ok ct
    same : blob ≡ 1 ∷ (salt ++ ct)

  to_encrypted_blob-Parts :
      (salt nonce : Bytes) (identity : Identity) (passphrase : Text) (blob : Bytes)
      → to_encrypted_blob c argon2 aes fields salt nonce identity passphrase ≡ ok blob
      → Parts salt nonce identity passphrase blob
  unfolding to_encrypted_blob
  to_encrypted_blob-Parts salt nonce identity passphrase blob h =
      elim (Option-cases (fields.to_vec 1 identity.display_name identity.mnemonic)) [
        | inl e ↦ absurd (ground (arith, e))
        | inr (payload, e) ↦ elim (Result-cases (derive_key argon2 passphrase salt)) [
          | inr (x, k) ↦ absurd (ground (arith, e, k))
          | inl (key, k) ↦ elim (Result-cases (encrypt_with_aad aes nonce key payload label)) [
            | inr (x, s) ↦ absurd (ground (arith, e, k, s))
            | inl (ct, s) ↦ record {
              payload = payload;
              key = key;
              ct = ct;
              written = e;
              derived = k;
              sealed = s;
              same = ground (arith, e, k, s);
            }
          ]
        ]
      ]

  -- The blob of an identity that a mnemonic made opens under its passphrase to that identity.
  pub from_encrypted_blob-to_encrypted_blob :
      (salt nonce : Bytes) (identity : Identity) (passphrase : Text) (blob : Bytes)
      → length salt ≡ 16
      → length nonce ≡ nonce_size
      → from_mnemonic c identity.display_name identity.mnemonic ≡ ok identity
      → to_encrypted_blob c argon2 aes fields salt nonce identity passphrase ≡ ok blob
      → from_encrypted_blob c argon2 aes fields blob passphrase ≡ ok identity
  unfolding from_encrypted_blob open_body
  from_encrypted_blob-to_encrypted_blob salt nonce identity passphrase blob s n again h =
      let p = to_encrypted_blob-Parts salt nonce identity passphrase blob h in
      let sized = length-encrypt_with_aad aes nonce p.key p.payload label p.ct n p.sealed in
      let long : ltb (length (1 ∷ (salt ++ p.ct))) (1 + 16 + 12 + 16) ≡ false =
        ground (arith, length-append salt p.ct, sized, s) in
      let front : take 16 (salt ++ p.ct) ≡ salt =
        ap (λ k. take k (salt ++ p.ct)) (sym s) ∙ take-append salt p.ct in
      let back : drop 16 (salt ++ p.ct) ≡ p.ct =
        ap (λ k. drop k (salt ++ p.ct)) (sym s) ∙ drop-append salt p.ct in
      let opened =
        encrypt_with_aad-decrypt_with_aad aes nonce p.key p.payload label p.ct n p.sealed in
      let read = fields.round_trip 1 identity.display_name identity.mnemonic p.payload p.written in
      rw (p.same, long, front, back, p.derived, opened, read) again

-- The mnemonic of an identity makes the identity again.
pub from_mnemonic_again :
    (c : Crates) (name sentence : Text) (identity : Identity)
    → from_mnemonic c name sentence ≡ ok identity
    → from_mnemonic c identity.display_name identity.mnemonic ≡ ok identity
unfolding from_mnemonic
from_mnemonic_again c name sentence identity h =
    elim (Option-cases (c.bip39.parse_normalized sentence)) [
      | inl e ↦ absurd (ground (arith, e))
      | inr (mnemonic, e) ↦ ground (arith, e, c.bip39.parse_normalized_idem sentence mnemonic e)
    ]
