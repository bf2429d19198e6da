-- ===== src/Crypto/Signal/Forgery.antt =====
-- aegis-mesh/crates/aegis-core/src/crypto/signal.rs: a session that was given a message which its peer
-- did not send.
use aegis_mesh.Base.{
  ℕ, zero, suc, ◌+◌, ◌%◌, ◌/◌, ◌^◌, ◌<◌, ◌≡◌, ◌≢◌, refl, sym, ap, ◌∙◌, ◌++◌, arith, true, none,
  some, Option-cases, Bool-cases, length, take, drop, take-append, drop-append, ltb, inl, inr,
}
use aegis_mesh.Base.Text.{Bytes, be_bytes, codes}
use aegis_mesh.Crypto.Aead.{
  nonce_size, tag_size, key_size, seal, unseal, encrypt_with_aad, decrypt_with_aad,
}
use aegis_mesh.Error.{ok, is_err}
use aegis_mesh.Crypto.Signal.{
  Suite, SessionState, ratchet_step, ratchet_send, ratchet_recv, session_id, encrypt, decrypt,
  le_bytes,
}
use aegis_mesh.Crypto.Signal.Agreement.{Mirrors}
use aegis_mesh.Crypto.Signal.Conversation.{encrypt-Parts}

le_bytes-injective : (w m n : ℕ) → m < 256 ^ w → n < 256 ^ w → le_bytes w m ≡ le_bytes w n → m ≡ n
unfolding le_bytes
le_bytes-injective zero m n hm hn e = omega arith
le_bytes-injective (suc w) m n hm hn e =
    let low : m % 256 ≡ n % 256 = ground (arith, e) in
    let high =
      le_bytes-injective w (m / 256) (n / 256) (omega (arith, hm)) (omega (arith, hn))
        (ap (drop 1) e) in
    omega (arith, low, high)

-- The counts of the two ends of a chain, apart from each other.
record IsApart (a b : SessionState) : Type 0 where
  send_n : a.send_n < 2 ^ 32
  recv_n : b.recv_n < 2 ^ 32
  other : a.send_n ≢ b.recv_n

module _ (s : Suite) where
  -- What two sessions come to where every later message of the first one arrives, in its order, and
  -- anything may arrive in the other direction.
  pub data Later (a b : SessionState) : SessionState → SessionState → Type 0 where
    at_once : Later a b a b
    sent :
        (a' b' : SessionState) (nonce plaintext ct : Bytes) (n : ℕ)
        → Later a b a' b'
        → (encrypt s a' nonce plaintext).1 ≡ ok (ct, n)
        → Later a b (encrypt s a' nonce plaintext).0 (decrypt s b' ct n).0
    answered :
        (a' b' : SessionState) (nonce plaintext ct : Bytes) (n : ℕ)
        → Later a b a' b'
        → Later a b (decrypt s a' ct n).0 (encrypt s b' nonce plaintext).0

  sent-IsApart :
      (a b : SessionState) (nonce plaintext ct : Bytes) (n : ℕ)
      → IsApart a b
      → IsApart (encrypt s a nonce plaintext).0 (decrypt s b ct n).0
  unfolding encrypt decrypt ratchet_send ratchet_recv ratchet_step
  sent-IsApart a b nonce plaintext ct n i = record {
    send_n = omega arith;
    recv_n = omega arith;
    other = λ e. i.other (omega (arith, e, i.send_n, i.recv_n));
  }

  answered-IsApart :
      (a b : SessionState) (nonce plaintext ct : Bytes) (n : ℕ)
      → IsApart a b
      → IsApart (decrypt s a ct n).0 (encrypt s b nonce plaintext).0
  unfolding encrypt decrypt ratchet_send ratchet_recv
  answered-IsApart a b nonce plaintext ct n i = record {
    send_n = i.send_n;
    recv_n = i.recv_n;
    other = i.other;
  }

  forged-IsApart :
      (a b : SessionState) (forged : Bytes) (n : ℕ)
      → a.send_n < 2 ^ 32
      → Mirrors a b
      → IsApart a (decrypt s b forged n).0
  unfolding decrypt ratchet_recv ratchet_step
  forged-IsApart a b forged n l m = record {
    send_n = l;
    recv_n = omega arith;
    other = λ e. omega (arith, e, l, m.forth_n);
  }

  Later-IsApart : (a b a' b' : SessionState) → Later a b a' b' → IsApart a b → IsApart a' b'
  Later-IsApart a b _ _ at_once i = i
  Later-IsApart a b _ _ (sent a' b' nonce plaintext ct n l e) i =
      sent-IsApart a' b' nonce plaintext ct n (Later-IsApart a b a' b' l i)
  Later-IsApart a b _ _ (answered a' b' nonce plaintext ct n l) i =
      answered-IsApart a' b' nonce plaintext ct n (Later-IsApart a b a' b' l i)

  -- The message keys of one purpose differ where the counts do.
  abbrev pub HasDistinctKeys : Type 0
  HasDistinctKeys =
      (key key' info info' : Bytes)
      → s.hkdf.derive key (codes "aegis-ratchet-msg") info key_size
        ≡ s.hkdf.derive key' (codes "aegis-ratchet-msg") info' key_size
      → info ≡ info'

  -- What was encrypted under one key is refused under another.
  abbrev pub IsBound : Type 0
  IsBound =
      (key key' nonce msg aad aad' ct : Bytes)
      → s.aes.encrypt key nonce msg aad ≡ some ct
      → key ≢ key'
      → s.aes.decrypt key' nonce ct aad' ≡ none

  unseal-other_key :
      (key key' nonce plaintext aad aad' blob : Bytes)
      → IsBound
      → length nonce ≡ nonce_size
      → encrypt_with_aad s.aes nonce key plaintext aad ≡ ok blob
      → key ≢ key'
      → is_err (decrypt_with_aad s.aes key' blob aad') ≡ true
  unfolding encrypt_with_aad decrypt_with_aad seal unseal
  unseal-other_key key key' nonce plaintext aad aad' blob bound l h other =
      elim (Option-cases (s.aes.encrypt key nonce plaintext aad)) [
        | inl e ↦ absurd (ground (arith, e))
        | inr (ct, e) ↦
            let whole : nonce ++ ct ≡ blob = ground (arith, e) in
            let front : take nonce_size (nonce ++ ct) ≡ nonce =
              ap (λ n. take n (nonce ++ ct)) (sym l) ∙ take-append nonce ct in
            let back : drop nonce_size (nonce ++ ct) ≡ ct =
              ap (λ n. drop n (nonce ++ ct)) (sym l) ∙ drop-append nonce ct in
            rw (← whole, front, back, bound key key' nonce plaintext aad aad' ct e other)
              (elim (Bool-cases (ltb (length (nonce ++ ct)) (nonce_size + tag_size))) [
                | inl short ↦ rw short refl
                | inr long ↦ rw long refl
              ])
      ]

  message_keys :
      (a b : SessionState)
      → HasDistinctKeys
      → IsApart a b
      → (ratchet_send s a).1 ≢ (ratchet_recv s b).1
  unfolding ratchet_send ratchet_recv ratchet_step
  message_keys a b distinct i e =
      let m = (a.send_n + 1) % 2 ^ 32 in
      let n = (b.recv_n + 1) % 2 ^ 32 in
      let infos =
        distinct
          (s.hkdf.derive a.send_chain_key (codes "aegis-ratchet-chain") (le_bytes 4 a.send_n)
            key_size)
          (s.hkdf.derive b.recv_chain_key (codes "aegis-ratchet-chain") (le_bytes 4 b.recv_n)
            key_size)
          (le_bytes 4 m) (le_bytes 4 n) e in
      let same = le_bytes-injective 4 m n (omega arith) (omega arith) infos in
      i.other (omega (arith, same, i.send_n, i.recv_n))

  -- Once a session was given bytes that its peer did not send it for a message, no message that the
  -- peer encrypts from then on is ever decrypted, although all of them arrive, in their order, and
  -- whatever is sent in the other direction. The two sessions mirrored each other before, the count
  -- of the peer was below 2^32, the nonce has 12 bytes, message keys are derived from their counts
  -- without collisions, and AES-GCM refuses what was encrypted under another key.
  pub decrypt-forged :
      (a b : SessionState) (forged : Bytes) (k : ℕ) (a' b' : SessionState)
      (nonce plaintext ct : Bytes) (n : ℕ)
      → HasDistinctKeys
      → IsBound
      → a.send_n < 2 ^ 32
      → Mirrors a b
      → Later a (decrypt s b forged k).0 a' b'
      → length nonce ≡ nonce_size
      → (encrypt s a' nonce plaintext).1 ≡ ok (ct, n)
      → is_err (decrypt s b' ct n).1 ≡ true
  unfolding decrypt
  decrypt-forged a b forged k a' b' nonce plaintext ct n distinct bound l m later size h =
      let start = forged-IsApart a b forged k l m in
      let apart = Later-IsApart a (decrypt s b forged k).0 a' b' later start in
      let (sealed, count) = encrypt-Parts s a' nonce plaintext ct n h in
      unseal-other_key (ratchet_send s a').1 (ratchet_recv s b').1 nonce plaintext
        (session_id s a' ++ be_bytes 4 (ratchet_send s a').0.send_n)
        (session_id s b' ++ be_bytes 4 n) ct bound size sealed (message_keys a' b' distinct apart)
