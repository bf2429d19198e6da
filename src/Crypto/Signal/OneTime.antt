-- ===== src/Crypto/Signal/OneTime.antt =====
-- aegis-mesh/crates/aegis-core/src/crypto/signal.rs: the key agreement with a one-time prekey.
use mathlib.Core.List.{append_cancel_left}
use aegis_mesh.Base.{◌≡◌, ◌≢◌, sym, ap, ◌∙◌, some, ◌++◌, inl, inr, arith}
use aegis_mesh.Base.Text.{Bytes, codes}
use aegis_mesh.Crypto.Aead.{key_size}
use aegis_mesh.Crypto.KeyAgreement.{KeyPair, from_secret_bytes, derive_shared_key-from_secret_bytes}
use aegis_mesh.Error.{ok, Result-cases}
use aegis_mesh.Crypto.Signal.{
  Suite, Signer, SessionState, X3DhBundle, X3DhInitialMessage, init_as_alice, init_as_bob,
  root_key_of, shared,
}
use aegis_mesh.Crypto.Signal.Agreement.{
  init_as_alice-Parts, message_of, alice_dh3, bob_dh1, bob_dh2,
}

module _ (s : Suite) where
  bob_root :
      (alice : Signer) (bundle : X3DhBundle) (prekey ephemeral dh1 dh2 ratchet' : Bytes)
      (opk : KeyPair) (b : SessionState)
      → bundle.signed_prekey ≡ (from_secret_bytes s.x prekey).public
      → shared s
          (from_secret_bytes s.x prekey)
          (s.to_montgomery (s.ed.verifying_key alice.seed))
          (codes "x3dh-dh1")
        ≡ ok dh1
      → shared s
          (from_secret_bytes s.x prekey)
          (from_secret_bytes s.x ephemeral).public
          (codes "x3dh-dh2")
        ≡ ok dh2
      → init_as_bob s
          (from_secret_bytes s.x prekey)
          (some opk)
          (message_of s alice bundle ephemeral)
          ratchet'
        ≡ ok b
      → (dh3 : Bytes) × (shared s opk (from_secret_bytes s.x ephemeral).public (codes "x3dh-dh3")
          ≡ ok dh3)
        × (b.root_key ≡ root_key_of s dh1 dh2 dh3)
  unfolding init_as_bob
  bob_root alice bundle prekey ephemeral dh1 dh2 ratchet' opk b signed e1 e2 h =
      elim (Result-cases
        (shared s opk (from_secret_bytes s.x ephemeral).public (codes "x3dh-dh3"))) [
          | inr (e, e3) ↦ absurd (ground (arith, e1, e2, e3))
          | inl (dh3, e3) ↦ (dh3, e3, ground (arith, e1, e2, e3))
        ]

  -- With a one-time prekey the two sides never agree: if both succeed, Alice's second secret gives
  -- another key with the one-time prekey than her ephemeral secret, and the root keys of two inputs
  -- are the same only if the inputs are, then the two sessions have different root keys.
  pub init_as_bob-one_time_prekey :
      (alice : Signer) (bundle : X3DhBundle)
      (prekey one_time ephemeral second ratchet ratchet' : Bytes) (a b : SessionState)
      (msg : X3DhInitialMessage)
      → ((m m' : Bytes)
          → s.hkdf.derive m (codes "aegis-x3dh-root") (codes "v2") key_size
            ≡ s.hkdf.derive m' (codes "aegis-x3dh-root") (codes "v2") key_size
          → m ≡ m')
      → bundle.signed_prekey ≡ (from_secret_bytes s.x prekey).public
      → bundle.one_time_prekey ≡ some (from_secret_bytes s.x one_time).public
      → shared s
          (from_secret_bytes s.x second)
          (from_secret_bytes s.x one_time).public
          (codes "x3dh-dh3")
        ≢ shared s
            (from_secret_bytes s.x ephemeral)
            (from_secret_bytes s.x one_time).public
            (codes "x3dh-dh3")
      → init_as_alice s alice bundle ephemeral second ratchet ≡ ok (a, msg)
      → init_as_bob s
          (from_secret_bytes s.x prekey)
          (some (from_secret_bytes s.x one_time))
          msg
          ratchet'
        ≡ ok b
      → a.root_key ≢ b.root_key
  unfolding root_key_of
  init_as_bob-one_time_prekey alice bundle prekey one_time ephemeral second ratchet ratchet' a b msg
        apart signed otp other h h' same =
      let p = init_as_alice-Parts s alice bundle ephemeral second ratchet a msg h in
      let (dh3, e3, root) =
        bob_root alice bundle prekey ephemeral p.dh1 p.dh2 ratchet' (from_secret_bytes s.x one_time)
          b signed (bob_dh1 s alice bundle prekey p.dh1 signed p.dh1_ok)
          (bob_dh2 s bundle prekey ephemeral p.dh2 signed p.dh2_ok)
          (ap
              (λ m.
                init_as_bob s (from_secret_bytes s.x prekey) (some (from_secret_bytes s.x one_time))
                  m ratchet')
              (sym p.sent)
            ∙ h') in
      let roots = sym (ap (λ st. st.root_key) p.state) ∙ same ∙ root in
      let inputs = apart (p.dh1 ++ (p.dh2 ++ p.dh3)) (p.dh1 ++ (p.dh2 ++ dh3)) roots in
      let keys : p.dh3 ≡ dh3 =
        append_cancel_left p.dh2 p.dh3 dh3
          (append_cancel_left p.dh1 (p.dh2 ++ p.dh3) (p.dh2 ++ dh3) inputs) in
      let hers = ap (alice_dh3 s second) (sym otp) ∙ p.dh3_ok in
      let his =
        sym (derive_shared_key-from_secret_bytes s.x s.hkdf one_time ephemeral (codes "x3dh-dh3"))
        ∙ e3 in
      other (hers ∙ ap ok keys ∙ sym his)
