-- ===== src/Crypto/Signal/Conversation.antt =====
-- aegis-mesh/crates/aegis-core/src/crypto/signal.rs: messages between two sessions that mirror each
-- other.
use aegis_mesh.Base.{ℕ, ◌≡◌, refl, sym, ap, ◌++◌, arith, length, inl, inr}
use aegis_mesh.Base.Text.{Bytes, be_bytes}
use aegis_mesh.Crypto.Aead.{nonce_size, encrypt_with_aad}
use aegis_mesh.Crypto.Aead.RoundTrip.{encrypt_with_aad-decrypt_with_aad}
use aegis_mesh.Error.{ok, Result-cases}
use aegis_mesh.Crypto.Signal.{
  Suite, SessionState, ratchet_step, ratchet_send, ratchet_recv, session_id, encrypt, decrypt,
}
use aegis_mesh.Crypto.Signal.Agreement.{Mirrors}

Mirrors-sym : (a b : SessionState) → Mirrors a b → Mirrors b a
Mirrors-sym a b m = record {
  root = sym m.root;
  forth = sym m.back;
  back = sym m.forth;
  forth_n = sym m.back_n;
  back_n = sym m.forth_n;
}

module _ (s : Suite) where
  -- The two chains step alike.
  ratchet_recv-Mirrors :
      (a b : SessionState)
      → Mirrors a b
      → ((ratchet_recv s b).1 ≡ (ratchet_send s a).1)
        × Mirrors (ratchet_send s a).0 (ratchet_recv s b).0
  unfolding ratchet_send ratchet_recv
  ratchet_recv-Mirrors a b m =
      let same : ratchet_step s b.recv_chain_key b.recv_n
          ≡ ratchet_step s a.send_chain_key a.send_n =
        rw (m.forth, m.forth_n) refl in
      (
        ap (λ r. r.2) same,
        record {
          root = m.root;
          forth = ap (λ r. r.0) (sym same);
          back = m.back;
          forth_n = ap (λ r. r.1) (sym same);
          back_n = m.back_n;
        },
      )

  session_id-Mirrors : (a b : SessionState) → Mirrors a b → session_id s b ≡ session_id s a
  unfolding session_id
  session_id-Mirrors a b m = ap (λ r. s.hash.hex_encode (s.hash.sha256 r)) (sym m.root)

  pub encrypt-Parts :
      (a : SessionState) (nonce plaintext ct : Bytes) (n : ℕ)
      → (encrypt s a nonce plaintext).1 ≡ ok (ct, n)
      → (encrypt_with_aad s.aes nonce
            (ratchet_send s a).1
            plaintext
            (session_id s a ++ be_bytes 4 (ratchet_send s a).0.send_n)
          ≡ ok ct)
        × (n ≡ (ratchet_send s a).0.send_n)
  unfolding encrypt
  encrypt-Parts a nonce plaintext ct n h =
      let aad = session_id s a ++ be_bytes 4 (ratchet_send s a).0.send_n in
      elim (Result-cases (encrypt_with_aad s.aes nonce (ratchet_send s a).1 plaintext aad)) [
        | inr (e, q) ↦ absurd (ground (arith, q))
        | inl (c, q) ↦ (ground (arith, q), ground (arith, q))
      ]

  -- What one session encrypts under a nonce of 12 bytes its mirror decrypts, and then the two mirror
  -- each other again.
  pub encrypt-decrypt :
      (a b : SessionState) (nonce plaintext ct : Bytes) (n : ℕ)
      → Mirrors a b
      → length nonce ≡ nonce_size
      → (encrypt s a nonce plaintext).1 ≡ ok (ct, n)
      → ((decrypt s b ct n).1 ≡ ok plaintext)
        × Mirrors (encrypt s a nonce plaintext).0 (decrypt s b ct n).0
  unfolding decrypt
  encrypt-decrypt a b nonce plaintext ct n m l h =
      let (sealed, count) = encrypt-Parts a nonce plaintext ct n h in
      let (same_key, mirrored) = ratchet_recv-Mirrors a b m in
      let opened =
        encrypt_with_aad-decrypt_with_aad s.aes nonce (ratchet_send s a).1 plaintext
          (session_id s a ++ be_bytes 4 (ratchet_send s a).0.send_n) ct l sealed in
      (rw (same_key, session_id-Mirrors a b m, count) opened, unfold encrypt in mirrored)

  -- The sessions of a conversation in which every message arrives, in its order, and either side
  -- may send the next.
  pub data Conversation : SessionState → SessionState → Type 0 where
    start : (a b : SessionState) → Mirrors a b → Conversation a b
    forth :
        (a b : SessionState) (nonce plaintext ct : Bytes) (n : ℕ)
        → Conversation a b
        → length nonce ≡ nonce_size
        → (encrypt s a nonce plaintext).1 ≡ ok (ct, n)
        → Conversation (encrypt s a nonce plaintext).0 (decrypt s b ct n).0
    back :
        (a b : SessionState) (nonce plaintext ct : Bytes) (n : ℕ)
        → Conversation a b
        → length nonce ≡ nonce_size
        → (encrypt s b nonce plaintext).1 ≡ ok (ct, n)
        → Conversation (decrypt s a ct n).0 (encrypt s b nonce plaintext).0

  -- In a conversation of mirrored sessions in which every message arrives and in its order, whoever
  -- sends next, the two sessions mirror each other after every message.
  pub Conversation-Mirrors : (a b : SessionState) → Conversation a b → Mirrors a b
  Conversation-Mirrors _ _ (start a b m) = m
  Conversation-Mirrors _ _ (forth a b nonce plaintext ct n c l h) =
      (encrypt-decrypt a b nonce plaintext ct n (Conversation-Mirrors a b c) l h).1
  Conversation-Mirrors _ _ (back a b nonce plaintext ct n c l h) =
      let m = Mirrors-sym a b (Conversation-Mirrors a b c) in
      Mirrors-sym (encrypt s b nonce plaintext).0 (decrypt s a ct n).0
        (encrypt-decrypt b a nonce plaintext ct n m l h).1
