-- ===== src/Crypto/Signal/Agreement.antt =====
-- aegis-mesh/crates/aegis-core/src/crypto/signal.rs: what the two sides of a session agree on.
use aegis_mesh.Base.{
  ◌≡◌, refl, sym, ap, ◌∙◌, true, Option, none, some, [], arith, ◌==◌, ==_iff, nat_eq, list_eq, inl,
  inr,
}
use mathlib.Core.Path.{subst}
use aegis_mesh.Base.Text.{Bytes, Text, codes}
use aegis_mesh.Crypto.KeyAgreement.{
  from_secret_bytes, ed25519_to_x25519_secret, derive_shared_key-from_secret_bytes,
}
use aegis_mesh.Error.{Result, ok, Result-cases}
use aegis_mesh.Crypto.Signal.{
  Suite, Signer, SessionState, X3DhBundle, X3DhInitialMessage, init_as_alice, init_as_bob,
  root_key_of, chain_of, shared,
}

-- What one side sends with, the other receives with, and the roots are the same.
pub record Mirrors (a b : SessionState) : Type 0 where
  pub root : a.root_key ≡ b.root_key
  pub forth : a.send_chain_key ≡ b.recv_chain_key
  pub back : a.recv_chain_key ≡ b.send_chain_key
  pub forth_n : a.send_n ≡ b.recv_n
  pub back_n : a.recv_n ≡ b.send_n

module _ (s : Suite) where
  public-from_secret_bytes :
      (secret : Bytes) → (from_secret_bytes s.x secret).public ≡ s.x.public_key secret
  unfolding from_secret_bytes
  public-from_secret_bytes secret = refl

  -- The first agreement, from both sides.
  dh1_lem :
      (seed prekey : Bytes) (context : Text)
      → shared s
          (from_secret_bytes s.x (ed25519_to_x25519_secret s.sha512 seed))
          (from_secret_bytes s.x prekey).public
          context
        ≡ shared s
            (from_secret_bytes s.x prekey)
            (s.to_montgomery (s.ed.verifying_key seed))
            context
  dh1_lem seed prekey context =
      derive_shared_key-from_secret_bytes s.x s.hkdf (ed25519_to_x25519_secret s.sha512 seed) prekey
        context
      ∙ ap (λ p. shared s (from_secret_bytes s.x prekey) p context)
          (public-from_secret_bytes (ed25519_to_x25519_secret s.sha512 seed) ∙ s.conversion seed)

  -- The sessions that the two sides make of a root key, and the message between them.
  abbrev pub alice_state : X3DhBundle → Bytes → Bytes → SessionState
  alice_state bundle root ratchet = record {
    peer_id = bundle.identity_id;
    root_key = root;
    send_chain_key = chain_of s root (codes "send");
    recv_chain_key = chain_of s root (codes "recv");
    send_n = 0;
    recv_n = 0;
    our_ratchet = from_secret_bytes s.x ratchet;
    peer_ratchet_public = bundle.signed_prekey;
  }

  abbrev pub message_of : Signer → X3DhBundle → Bytes → X3DhInitialMessage
  message_of alice bundle ephemeral = record {
    alice_identity_id = alice.id;
    alice_identity_key = s.ed.verifying_key alice.seed;
    alice_ephemeral_public = (from_secret_bytes s.x ephemeral).public;
    bob_signed_prekey = bundle.signed_prekey;
  }

  abbrev bob_state : X3DhInitialMessage → Bytes → Bytes → SessionState
  bob_state msg root ratchet = record {
    peer_id = msg.alice_identity_id;
    root_key = root;
    send_chain_key = chain_of s root (codes "recv");
    recv_chain_key = chain_of s root (codes "send");
    send_n = 0;
    recv_n = 0;
    our_ratchet = from_secret_bytes s.x ratchet;
    peer_ratchet_public = msg.alice_ephemeral_public;
  }

  -- The agreements of Alice's side.
  abbrev pub alice_dh1 : Signer → Bytes → Result Bytes
  alice_dh1 alice prekey =
      shared s (from_secret_bytes s.x (ed25519_to_x25519_secret s.sha512 alice.seed)) prekey
        (codes "x3dh-dh1")

  abbrev pub alice_dh2 : Bytes → Bytes → Result Bytes
  alice_dh2 ephemeral prekey = shared s (from_secret_bytes s.x ephemeral) prekey (codes "x3dh-dh2")

  abbrev pub alice_dh3 : Bytes → Option Bytes → Result Bytes
  alice_dh3 second otp = elim otp [
    | none ↦ ok []
    | some opk ↦ shared s (from_secret_bytes s.x second) opk (codes "x3dh-dh3")
  ]

  -- The parts of a run of Alice's side that succeeds.
  pub record Parts (alice : Signer) (bundle : X3DhBundle) (ephemeral second ratchet : Bytes)
      (a : SessionState) (msg : X3DhInitialMessage) : Type 0 where
    pub dh1 : Bytes
    pub dh2 : Bytes
    pub dh3 : Bytes
    pub dh1_ok : alice_dh1 alice bundle.signed_prekey ≡ ok dh1
    pub dh2_ok : alice_dh2 ephemeral bundle.signed_prekey ≡ ok dh2
    pub dh3_ok : alice_dh3 second bundle.one_time_prekey ≡ ok dh3
    pub state : a ≡ alice_state bundle (root_key_of s dh1 dh2 dh3) ratchet
    pub sent : msg ≡ message_of alice bundle ephemeral

  pub init_as_alice-Parts :
      (alice : Signer) (bundle : X3DhBundle) (ephemeral second ratchet : Bytes) (a : SessionState)
      (msg : X3DhInitialMessage)
      → init_as_alice s alice bundle ephemeral second ratchet ≡ ok (a, msg)
      → Parts alice bundle ephemeral second ratchet a msg
  unfolding init_as_alice
  init_as_alice-Parts alice bundle ephemeral second ratchet a msg h =
      elim (Result-cases (alice_dh1 alice bundle.signed_prekey)) [
        | inr (e, e1) ↦ absurd (ground (arith, e1))
        | inl (dh1, e1) ↦ elim (Result-cases (alice_dh2 ephemeral bundle.signed_prekey)) [
          | inr (e, e2) ↦ absurd (ground (arith, e1, e2))
          | inl (dh2, e2) ↦ elim (Result-cases (alice_dh3 second bundle.one_time_prekey)) [
            | inr (e, e3) ↦ absurd (ground (arith, e1, e2, e3))
            | inl (dh3, e3) ↦ record {
              dh1 = dh1;
              dh2 = dh2;
              dh3 = dh3;
              dh1_ok = e1;
              dh2_ok = e2;
              dh3_ok = e3;
              state = ground (arith, e1, e2, e3);
              sent = ground (arith, e1, e2, e3);
            }
          ]
        ]
      ]

  pub bob_dh1 :
      (alice : Signer) (bundle : X3DhBundle) (prekey dh1 : Bytes)
      → bundle.signed_prekey ≡ (from_secret_bytes s.x prekey).public
      → alice_dh1 alice bundle.signed_prekey ≡ ok dh1
      → shared s
          (from_secret_bytes s.x prekey)
          (s.to_montgomery (s.ed.verifying_key alice.seed))
          (codes "x3dh-dh1")
        ≡ ok dh1
  bob_dh1 alice bundle prekey dh1 signed e =
      sym (dh1_lem alice.seed prekey (codes "x3dh-dh1")) ∙ ap (alice_dh1 alice) (sym signed) ∙ e

  pub bob_dh2 :
      (bundle : X3DhBundle) (prekey ephemeral dh2 : Bytes)
      → bundle.signed_prekey ≡ (from_secret_bytes s.x prekey).public
      → alice_dh2 ephemeral bundle.signed_prekey ≡ ok dh2
      → shared s
          (from_secret_bytes s.x prekey)
          (from_secret_bytes s.x ephemeral).public
          (codes "x3dh-dh2")
        ≡ ok dh2
  bob_dh2 bundle prekey ephemeral dh2 signed e =
      derive_shared_key-from_secret_bytes s.x s.hkdf prekey ephemeral (codes "x3dh-dh2")
      ∙ ap (alice_dh2 ephemeral) (sym signed)
      ∙ e

  -- Bob's side on Alice's message, without a one-time prekey.
  bob_run :
      (alice : Signer) (bundle : X3DhBundle) (prekey ephemeral dh1 dh2 ratchet' : Bytes)
      → alice.id ≡ s.hash.hex_encode (s.hash.sha256 (s.ed.verifying_key alice.seed))
      → bundle.signed_prekey ≡ (from_secret_bytes s.x prekey).public
      → alice_dh1 alice bundle.signed_prekey ≡ ok dh1
      → alice_dh2 ephemeral bundle.signed_prekey ≡ ok dh2
      → init_as_bob s
          (from_secret_bytes s.x prekey)
          none
          (message_of alice bundle ephemeral)
          ratchet'
        ≡ ok (bob_state (message_of alice bundle ephemeral) (root_key_of s dh1 dh2 []) ratchet')
  unfolding init_as_bob
  bob_run alice bundle prekey ephemeral dh1 dh2 ratchet' own signed e1 e2 =
      let own_key : (s.hash.hex_encode (s.hash.sha256 (s.ed.verifying_key alice.seed)) == alice.id)
          ≡ true =
        (==_iff _ alice.id).1 (sym own) in
      rw
        (
          own_key,
          s.ed.verifying_key-valid alice.seed,
          bob_dh1 alice bundle prekey dh1 signed e1,
          bob_dh2 bundle prekey ephemeral dh2 signed e2,
        )
        refl

  -- Without a one-time prekey, if Alice's side of the agreement succeeds on a bundle with Bob's
  -- signed prekey, and her identifier is that of her key, Bob's side succeeds on her message, and
  -- the two sessions mirror each other.
  pub init_as_bob-init_as_alice :
      (alice : Signer) (bundle : X3DhBundle) (prekey ephemeral second ratchet ratchet' : Bytes)
      (a : SessionState) (msg : X3DhInitialMessage)
      → alice.id ≡ s.hash.hex_encode (s.hash.sha256 (s.ed.verifying_key alice.seed))
      → bundle.signed_prekey ≡ (from_secret_bytes s.x prekey).public
      → bundle.one_time_prekey ≡ none
      → init_as_alice s alice bundle ephemeral second ratchet ≡ ok (a, msg)
      → (b : SessionState) × (init_as_bob s (from_secret_bytes s.x prekey) none msg ratchet' ≡ ok b)
        × Mirrors a b
  init_as_bob-init_as_alice alice bundle prekey ephemeral second ratchet ratchet' a msg own signed
        no_otp h =
      let p = init_as_alice-Parts alice bundle ephemeral second ratchet a msg h in
      let sent_message = message_of alice bundle ephemeral in
      let root = root_key_of s p.dh1 p.dh2 [] in
      let b = bob_state sent_message root ratchet' in
      let nothing : p.dh3 ≡ [] = ground (arith, p.dh3_ok, no_otp) in
      let run =
        bob_run alice bundle prekey ephemeral p.dh1 p.dh2 ratchet' own signed p.dh1_ok p.dh2_ok in
      let same : a ≡ alice_state bundle root ratchet =
        p.state ∙ ap (λ d. alice_state bundle (root_key_of s p.dh1 p.dh2 d) ratchet) nothing in
      (
        b,
        ap (λ m. init_as_bob s (from_secret_bytes s.x prekey) none m ratchet') p.sent ∙ run,
        subst (λ st. Mirrors st b) (sym same)
            (record { root = refl; forth = refl; back = refl; forth_n = refl; back_n = refl }),
      )
