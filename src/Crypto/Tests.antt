-- ===== src/Crypto/Tests.antt =====
-- The theorems on aegis-mesh/crates/aegis-core/src/crypto at concrete values.
pub mod AtRest
pub mod Forged
use mathlib.Core.List.{append_cancel_right}
use aegis_mesh.Base.{◌≢◌, ap, some, ℕ, ◌≡◌, ◌↔◌, refl, sym, none, [], ◌∷◌, ◌++◌, arith, replicate}
use aegis_mesh.Base.Text.{Bytes, codes}
use aegis_mesh.Error.{Result, ok}
use aegis_mesh.Crypto.Aead.{AeadCipher, next_nonce, seal, encrypt_with_aad}
use aegis_mesh.Crypto.Aead.RoundTrip.{after_nonces, next_nonce-injective}
use aegis_mesh.Crypto.KeyAgreement.{
  from_secret_bytes, derive_shared_key, ed25519_to_x25519_secret, clamp,
}
use aegis_mesh.Crypto.Signal.{
  Signer, SessionState, X3DhBundle, X3DhInitialMessage, verify_bundle, init_as_alice, init_as_bob,
  root_key_of, shared, encrypt, decrypt, ratchet_send, ratchet_step,
}
use aegis_mesh.Crypto.Signal.Agreement.{Mirrors, init_as_bob-init_as_alice}
use aegis_mesh.Crypto.Signal.Conversation.{start, forth, encrypt-decrypt, Conversation-Mirrors}
use aegis_mesh.Crypto.Signal.OneTime.{init_as_bob-one_time_prekey}
use aegis_mesh.Samples.{plain_suite}

abbrev nonce : Bytes
nonce = replicate 12 7

abbrev fresh_cipher : AeadCipher
fresh_cipher = record { key = 1 ∷ []; counter = 0 }

abbrev early : ℕ
early = 3

abbrev late : ℕ
late = 5

-- Alice, whose seed is 5, and the bundle of Bob, whose keys are 6 and 9.
abbrev alice_signer : Signer
alice_signer = record { seed = 5 ∷ []; id = 5 ∷ [] }

abbrev bob_bundle : X3DhBundle
bob_bundle = record {
  identity_id = 6 ∷ [];
  identity_key = 6 ∷ [];
  signed_prekey = 9 ∷ [];
  signed_prekey_sig = 6 ∷ 9 ∷ [];
  one_time_prekey = none;
}

abbrev initial : X3DhInitialMessage
initial = record {
  alice_identity_id = 5 ∷ [];
  alice_identity_key = 5 ∷ [];
  alice_ephemeral_public = 3 ∷ 3 ∷ [];
  bob_signed_prekey = 9 ∷ [];
}

bob_prekey : (from_secret_bytes plain_suite.x (9 ∷ [])).public ≡ 9 ∷ []
unfolding from_secret_bytes
bob_prekey = refl

alice_starts :
    (a : SessionState) × (init_as_alice plain_suite alice_signer bob_bundle (3 ∷ 3 ∷ []) [] (4 ∷ [])
      ≡ ok (a, initial))
unfolding init_as_alice verify_bundle from_secret_bytes derive_shared_key ed25519_to_x25519_secret
    clamp root_key_of
alice_starts = (_, refl)

init_as_bob-init_as_alice_example :
    (b : SessionState) × (init_as_bob plain_suite
        (from_secret_bytes plain_suite.x (9 ∷ []))
        none
        initial
        (8 ∷ [])
      ≡ ok b)
    × Mirrors alice_starts.0 b
init_as_bob-init_as_alice_example =
    init_as_bob-init_as_alice plain_suite alice_signer bob_bundle (9 ∷ []) (3 ∷ 3 ∷ []) [] (4 ∷ [])
      (8 ∷ []) alice_starts.0 initial refl (sym bob_prekey) refl alice_starts.1

-- The bundle with a one-time prekey, which is 7.
abbrev one_time_bundle : X3DhBundle
one_time_bundle = record bob_bundle { one_time_prekey = some (7 ∷ []) }

one_time_key : (from_secret_bytes plain_suite.x (7 ∷ [])).public ≡ 7 ∷ []
unfolding from_secret_bytes
one_time_key = refl

alice_starts_one_time :
    (a : SessionState) × (init_as_alice plain_suite alice_signer one_time_bundle
        (3 ∷ 3 ∷ [])
        []
        (4 ∷ [])
      ≡ ok (a, initial))
unfolding init_as_alice verify_bundle from_secret_bytes derive_shared_key ed25519_to_x25519_secret
    clamp root_key_of
alice_starts_one_time = (_, refl)

bob_starts_one_time :
    (b : SessionState) × (init_as_bob plain_suite
        (from_secret_bytes plain_suite.x (9 ∷ []))
        (some (from_secret_bytes plain_suite.x (7 ∷ [])))
        initial
        (8 ∷ [])
      ≡ ok b)
unfolding init_as_bob from_secret_bytes derive_shared_key ed25519_to_x25519_secret clamp root_key_of
bob_starts_one_time = (_, refl)

abbrev first_of : Result Bytes → ℕ
first_of (ok (n ∷ bytes)) = n
first_of _ = 0

other_key :
    shared plain_suite
      (from_secret_bytes plain_suite.x [])
      (from_secret_bytes plain_suite.x (7 ∷ [])).public
      (codes "x3dh-dh3")
    ≢ shared plain_suite
        (from_secret_bytes plain_suite.x (3 ∷ 3 ∷ []))
        (from_secret_bytes plain_suite.x (7 ∷ [])).public
        (codes "x3dh-dh3")
unfolding from_secret_bytes derive_shared_key
other_key e = omega (arith, ap first_of e)

init_as_bob-one_time_prekey_example :
    alice_starts_one_time.0.root_key ≢ bob_starts_one_time.0.root_key
init_as_bob-one_time_prekey_example =
    init_as_bob-one_time_prekey plain_suite alice_signer one_time_bundle (9 ∷ []) (7 ∷ [])
      (3 ∷ 3 ∷ []) [] (4 ∷ []) (8 ∷ []) alice_starts_one_time.0 bob_starts_one_time.0 initial
      (λ m m' e. append_cancel_right m m' (codes "aegis-x3dh-root" ++ codes "v2") e)
      (sym bob_prekey) (ap some (sym one_time_key)) other_key alice_starts_one_time.1
      bob_starts_one_time.1

-- Two sessions that mirror each other.
abbrev left : SessionState
left = record {
  peer_id = 6 ∷ [];
  root_key = 1 ∷ [];
  send_chain_key = 2 ∷ [];
  recv_chain_key = 3 ∷ [];
  send_n = 0;
  recv_n = 4;
  our_ratchet = record { secret = []; public = [] };
  peer_ratchet_public = [];
}

abbrev right : SessionState
right = record left {
  peer_id = 5 ∷ [];
  send_chain_key = 3 ∷ [];
  recv_chain_key = 2 ∷ [];
  send_n = 4;
  recv_n = 0;
}

left-Mirrors : Mirrors left right
left-Mirrors = record { root = refl; forth = refl; back = refl; forth_n = refl; back_n = refl }

abbrev sealed : Bytes
sealed = nonce ++ (104 ∷ 105 ∷ replicate 16 0)

left_encrypts : (encrypt plain_suite left nonce (104 ∷ 105 ∷ [])).1 ≡ ok (sealed, 1)
unfolding encrypt ratchet_send ratchet_step encrypt_with_aad seal
left_encrypts = refl

Conversation-Mirrors_example :
    Mirrors
      (encrypt plain_suite left nonce (104 ∷ 105 ∷ [])).0
      (decrypt plain_suite right sealed 1).0
Conversation-Mirrors_example =
    Conversation-Mirrors plain_suite (encrypt plain_suite left nonce (104 ∷ 105 ∷ [])).0
      (decrypt plain_suite right sealed 1).0
      (forth left right nonce (104 ∷ 105 ∷ []) sealed 1 (start left right left-Mirrors) refl
        left_encrypts)
