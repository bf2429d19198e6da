-- ===== src/Crypto/Signal.antt =====
-- aegis-mesh/crates/aegis-core/src/crypto/signal.rs: the key agreement of a session, its chains of
-- message keys, and its encryption. The ciphers are parameters; random secrets and nonces are
-- arguments, named for what they become.
pub mod Agreement
pub mod Conversation
pub mod OneTime
pub mod Forgery
use aegis_mesh.Base.{
  ℕ, zero, suc, ◌+◌, ◌/◌, ◌%◌, ◌^◌, ◌≡◌, Bool, true, false, not, ◌&&◌, Option, none, some, List, [],
  ◌∷◌, ◌++◌, ◌==◌, nat_eq, list_eq, if◌then◌else◌,
}
use aegis_mesh.Base.Text.{Bytes, Text, be_bytes, codes}
use aegis_mesh.Crypto.IdentityId.{IdentityId}
use aegis_mesh.Crypto.Aead.{key_size, encrypt_with_aad, decrypt_with_aad}
use aegis_mesh.Crypto.KeyAgreement.{
  KeyPair, from_secret_bytes, derive_shared_key, ed25519_to_x25519_secret,
}
use aegis_mesh.Crypto.Primitives.{Ed25519, Hash, X25519, Hkdf, Aes256Gcm}
use aegis_mesh.Error.{Result, ok, err, ◌>>=◌, ◌>>◌, ensure, signature}

pub record X3DhBundle : Type 0 where
  pub identity_id : IdentityId
  pub identity_key : Bytes
  pub signed_prekey : Bytes
  pub signed_prekey_sig : Bytes
  pub one_time_prekey : Option Bytes

pub record X3DhInitialMessage : Type 0 where
  pub alice_identity_id : IdentityId
  pub alice_identity_key : Bytes
  pub alice_ephemeral_public : Bytes
  pub bob_signed_prekey : Bytes

pub record SessionState : Type 0 where
  pub peer_id : IdentityId
  pub root_key : Bytes
  pub send_chain_key : Bytes
  pub recv_chain_key : Bytes
  pub send_n : ℕ
  pub recv_n : ℕ
  pub our_ratchet : KeyPair
  pub peer_ratchet_public : Bytes

-- The signing identity of a node: the seed of its key and its identifier.
pub record Signer : Type 0 where
  pub seed : Bytes
  pub id : IdentityId

-- `to_le_bytes` of a word of `w` bytes.
unfoldable pub le_bytes : ℕ → ℕ → Bytes
le_bytes zero n = []
le_bytes (suc w) n = n % 256 ∷ le_bytes w (n / 256)

-- The crates that a session calls. `to_montgomery` takes a verifying key to its X25519 key.
pub record Suite : Type 0 where
  pub ed : Ed25519
  pub hash : Hash
  pub sha512 : Bytes → Bytes
  pub x : X25519
  pub hkdf : Hkdf
  pub aes : Aes256Gcm
  pub to_montgomery : Bytes → Bytes
  -- The conversions of the two keys of an identity fit together.
  pub conversion :
      (seed : Bytes)
      → x.public_key (ed25519_to_x25519_secret sha512 seed) ≡ to_montgomery (ed.verifying_key seed)

module _ (s : Suite) where
  unfoldable pub verify_bundle : X3DhBundle → Bool
  verify_bundle bundle =
      s.hash.hex_encode (s.hash.sha256 bundle.identity_key) == bundle.identity_id
      && (s.ed.is_verifying_key bundle.identity_key
          && s.ed.verify bundle.identity_key bundle.signed_prekey bundle.signed_prekey_sig)

  -- One step of a chain: the next chain key and the message key. The count wraps around at 2 ^ 32.
  unfoldable pub ratchet_step : Bytes → ℕ → Bytes × ℕ × Bytes
  ratchet_step chain n =
      let next = s.hkdf.derive chain (codes "aegis-ratchet-chain") (le_bytes 4 n) key_size in
      let count = (n + 1) % 2 ^ 32 in
      (next, count, s.hkdf.derive next (codes "aegis-ratchet-msg") (le_bytes 4 count) key_size)

  unfoldable pub ratchet_send : SessionState → SessionState × Bytes
  ratchet_send st =
      let (next, count, mk) = ratchet_step st.send_chain_key st.send_n in
      (record st { send_chain_key = next; send_n = count }, mk)

  unfoldable pub ratchet_recv : SessionState → SessionState × Bytes
  ratchet_recv st =
      let (next, count, mk) = ratchet_step st.recv_chain_key st.recv_n in
      (record st { recv_chain_key = next; recv_n = count }, mk)

  -- `fresh` is the secret that is drawn. Where the second agreement fails, the root key and the key
  -- pair have changed already.
  unfoldable pub dh_ratchet : SessionState → Bytes → Bytes → SessionState × Result (Unit {0})
  dh_ratchet st fresh peer =
      elim (derive_shared_key s.x s.hkdf st.our_ratchet peer (codes "dh-ratchet-1")) [
        | err e ↦ (st, err e)
        | ok dh1 ↦
            let half = record st {
              root_key = s.hkdf.derive st.root_key (codes "root-dh") dh1 key_size;
              our_ratchet = from_secret_bytes s.x fresh;
            } in
            elim (derive_shared_key s.x s.hkdf half.our_ratchet peer (codes "dh-ratchet-2")) [
              | err e ↦ (half, err e)
              | ok dh2 ↦
                  let root = s.hkdf.derive half.root_key (codes "root-dh2") dh2 key_size in
                  (
                    record half {
                      root_key = root;
                      send_chain_key = s.hkdf.derive root (codes "chain") (codes "send") key_size;
                      recv_chain_key = s.hkdf.derive root (codes "chain") (codes "recv") key_size;
                      peer_ratchet_public = peer;
                      send_n = 0;
                      recv_n = 0;
                    },
                    ok tt,
                  )
            ]
      ]

  unfoldable pub session_id : SessionState → Text
  session_id st = s.hash.hex_encode (s.hash.sha256 st.root_key)

  -- The state moves also where the encryption fails.
  unfoldable pub encrypt : SessionState → Bytes → Bytes → SessionState × Result (Bytes × ℕ)
  encrypt st nonce plaintext =
      let (after, mk) = ratchet_send st in
      let aad = session_id st ++ be_bytes 4 after.send_n in
      (after, (do ct ← encrypt_with_aad s.aes nonce mk plaintext aad; ok (ct, after.send_n)))

  unfoldable pub decrypt : SessionState → Bytes → ℕ → SessionState × Result Bytes
  decrypt st ciphertext expected_n =
      let (after, mk) = ratchet_recv st in
      (after, decrypt_with_aad s.aes mk ciphertext (session_id st ++ be_bytes 4 expected_n))

  unfoldable pub root_key_of : Bytes → Bytes → Bytes → Bytes
  root_key_of dh1 dh2 dh3 =
      s.hkdf.derive (dh1 ++ (dh2 ++ dh3)) (codes "aegis-x3dh-root") (codes "v2") key_size

  abbrev pub chain_of : Bytes → Text → Bytes
  chain_of root way = s.hkdf.derive root (codes "aegis-init") way key_size

  abbrev pub shared : KeyPair → Bytes → Text → Result Bytes
  shared pair peer context = derive_shared_key s.x s.hkdf pair peer context

  -- `ephemeral`, `second` and `ratchet` are the secrets that are drawn: `second` is the ephemeral
  -- key for the one-time prekey.
  unfoldable pub init_as_alice :
      Signer → X3DhBundle → Bytes → Bytes → Bytes → Result (SessionState × X3DhInitialMessage)
  init_as_alice alice bundle ephemeral second ratchet = do
    ensure (verify_bundle bundle) signature
    dh1 ←
        shared (from_secret_bytes s.x (ed25519_to_x25519_secret s.sha512 alice.seed))
          bundle.signed_prekey (codes "x3dh-dh1")
    dh2 ← shared (from_secret_bytes s.x ephemeral) bundle.signed_prekey (codes "x3dh-dh2")
    dh3 ← elim bundle.one_time_prekey [
      | none ↦ ok []
      | some opk ↦ shared (from_secret_bytes s.x second) opk (codes "x3dh-dh3")
    ]
    let root = root_key_of dh1 dh2 dh3
    ok (
      record {
        peer_id = bundle.identity_id;
        root_key = root;
        send_chain_key = chain_of root (codes "send");
        recv_chain_key = chain_of root (codes "recv");
        send_n = 0;
        recv_n = 0;
        our_ratchet = from_secret_bytes s.x ratchet;
        peer_ratchet_public = bundle.signed_prekey;
      },
      record {
        alice_identity_id = alice.id;
        alice_identity_key = s.ed.verifying_key alice.seed;
        alice_ephemeral_public = (from_secret_bytes s.x ephemeral).public;
        bob_signed_prekey = bundle.signed_prekey;
      },
    )

  unfoldable pub init_as_bob :
      KeyPair → Option KeyPair → X3DhInitialMessage → Bytes → Result SessionState
  init_as_bob signed_prekey one_time_prekey msg ratchet = do
    ensure (s.hash.hex_encode (s.hash.sha256 msg.alice_identity_key) == msg.alice_identity_id)
        signature
    ensure (s.ed.is_verifying_key msg.alice_identity_key) signature
    dh1 ← shared signed_prekey (s.to_montgomery msg.alice_identity_key) (codes "x3dh-dh1")
    dh2 ← shared signed_prekey msg.alice_ephemeral_public (codes "x3dh-dh2")
    dh3 ← elim one_time_prekey [
      | none ↦ ok []
      | some opk ↦ shared opk msg.alice_ephemeral_public (codes "x3dh-dh3")
    ]
    let root = root_key_of dh1 dh2 dh3
    ok (record {
      peer_id = msg.alice_identity_id;
      root_key = root;
      send_chain_key = chain_of root (codes "recv");
      recv_chain_key = chain_of root (codes "send");
      send_n = 0;
      recv_n = 0;
      our_ratchet = from_secret_bytes s.x ratchet;
      peer_ratchet_public = msg.alice_ephemeral_public;
    })
