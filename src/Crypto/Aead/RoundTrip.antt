-- ===== src/Crypto/Aead/RoundTrip.antt =====
-- aegis-mesh/crates/aegis-core/src/crypto/aead.rs: what is sealed opens again, and the nonces of a
-- cipher.
use aegis_mesh.Base.{
  ℕ, zero, suc, ◌+◌, ◌^◌, ◌<◌, ◌≡◌, ◌↔◌, refl, sym, ap, ◌∙◌, ◌∷◌, ◌++◌, arith, ltb, length,
  length-append, take, drop, take-append, drop-append, Option-cases, inl, inr, false,
}
use aegis_mesh.Base.BigEndian.{be_bytes-injective}
use aegis_mesh.Base.Text.{Bytes, be_bytes}
use aegis_mesh.Crypto.Primitives.{Aes256Gcm}
use aegis_mesh.Error.{ok}
use aegis_mesh.Crypto.Aead.{
  AeadCipher, nonce_size, tag_size, next_nonce, seal, unseal, encrypt_with_aad, decrypt_with_aad,
}

module _ (aes : Aes256Gcm) where
  pub seal-unseal :
      (key nonce plaintext aad blob : Bytes)
      → length nonce ≡ nonce_size
      → seal aes key nonce plaintext aad ≡ ok blob
      → unseal aes key blob aad ≡ ok plaintext
  unfolding seal unseal
  seal-unseal key nonce plaintext aad blob n h =
      elim (Option-cases (aes.encrypt key nonce plaintext aad)) [
        | inl none_left ↦ absurd (ground (arith, none_left))
        | inr (ct, e) ↦
            let same : nonce ++ ct ≡ blob = ground (arith, e) in
            let long : ltb (length (nonce ++ ct)) (nonce_size + tag_size) ≡ false =
              ground (arith, length-append nonce ct, n, aes.tag key nonce plaintext aad ct e) in
            let front = ap (λ k. take k (nonce ++ ct)) (sym n) ∙ take-append nonce ct in
            let back = ap (λ k. drop k (nonce ++ ct)) (sym n) ∙ drop-append nonce ct in
            rw (← same) (rw (long, front, back, aes.round_trip key nonce plaintext aad ct e) refl)
      ]

  pub length-seal :
      (key nonce plaintext aad blob : Bytes)
      → length nonce ≡ nonce_size
      → seal aes key nonce plaintext aad ≡ ok blob
      → length blob ≡ nonce_size + length plaintext + tag_size
  unfolding seal
  length-seal key nonce plaintext aad blob n h =
      elim (Option-cases (aes.encrypt key nonce plaintext aad)) [
        | inl none_left ↦ absurd (ground (arith, none_left))
        | inr (ct, e) ↦
            let same : nonce ++ ct ≡ blob = ground (arith, e) in
            omega (
              arith,
              ap length same,
              length-append nonce ct,
              n,
              aes.tag key nonce plaintext aad ct e,
            )
      ]

  pub length-encrypt_with_aad :
      (nonce key plaintext aad blob : Bytes)
      → length nonce ≡ nonce_size
      → encrypt_with_aad aes nonce key plaintext aad ≡ ok blob
      → length blob ≡ nonce_size + length plaintext + tag_size
  unfolding encrypt_with_aad
  length-encrypt_with_aad nonce key plaintext aad blob n h =
      length-seal key nonce plaintext aad blob n h

  -- What a one-time encryption makes under any nonce of twelve bytes, decryption under the same key
  -- and associated data opens.
  pub encrypt_with_aad-decrypt_with_aad :
      (nonce key plaintext aad blob : Bytes)
      → length nonce ≡ nonce_size
      → encrypt_with_aad aes nonce key plaintext aad ≡ ok blob
      → decrypt_with_aad aes key blob aad ≡ ok plaintext
  unfolding encrypt_with_aad decrypt_with_aad
  encrypt_with_aad-decrypt_with_aad nonce key plaintext aad blob n h =
      seal-unseal key nonce plaintext aad blob n h

-- The cipher after some nonces.
pub after_nonces : ℕ → AeadCipher → AeadCipher
after_nonces zero cipher = cipher
after_nonces (suc n) cipher = after_nonces n (next_nonce cipher).0

counter-after_nonces :
    (n : ℕ) (cipher : AeadCipher)
    → cipher.counter + n < 2 ^ 64
    → (after_nonces n cipher).counter ≡ cipher.counter + n
unfolding after_nonces next_nonce
counter-after_nonces zero cipher h = omega arith
counter-after_nonces (suc n) cipher h =
    let next = (next_nonce cipher).0 in omega (arith, counter-after_nonces n next (omega arith))

-- Within the first 2 ^ 64 encryptions of a cipher no nonce is used twice.
pub next_nonce-injective :
    (key : Bytes) (m n : ℕ)
    → m < 2 ^ 64
    → n < 2 ^ 64
    → let start : AeadCipher = record { key = key; counter = 0 } in
      ((next_nonce (after_nonces m start)).1 ≡ (next_nonce (after_nonces n start)).1) ↔ (m ≡ n)
unfolding next_nonce
next_nonce-injective key m n hm hn =
    let start : AeadCipher = record { key = key; counter = 0 } in
    let at_m = counter-after_nonces m start (omega arith) in
    let at_n = counter-after_nonces n start (omega arith) in
    (
      (λ e.
          let same =
            be_bytes-injective 8 (after_nonces m start).counter (after_nonces n start).counter
              (omega (arith, at_m, hm)) (omega (arith, at_n, hn)) (ap (drop 4) e) in
          omega (arith, same, at_m, at_n)),
      ap (λ k. 0 ∷ 0 ∷ 0 ∷ 0 ∷ be_bytes 8 (after_nonces k start).counter),
    )
