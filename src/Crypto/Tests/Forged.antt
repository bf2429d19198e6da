-- ===== src/Crypto/Tests/Forged.antt =====
-- A session of aegis-mesh/crates/aegis-core/src/crypto/signal.rs that was given a forged message, with
-- a cipher for one key only.
use aegis_mesh.Base.{
  ◌≡◌, refl, sym, ◌∙◌, arith, true, none, some, Option, [], ◌∷◌, replicate, inl, inr, ◌==◌, nat_eq,
  list_eq, ==_iff, Bool-cases, if◌then◌else◌,
}
use aegis_mesh.Base.Text.{Bytes}
use aegis_mesh.Crypto.Aead.{encrypt_with_aad, seal}
use aegis_mesh.Crypto.Primitives.{Aes256Gcm}
use aegis_mesh.Crypto.Signal.{
  Suite, SessionState, encrypt, decrypt, ratchet_send, ratchet_step, le_bytes,
}
use aegis_mesh.Crypto.Signal.Agreement.{Mirrors}
use aegis_mesh.Crypto.Signal.Forgery.{HasDistinctKeys, IsBound, at_once, decrypt-forged}
use aegis_mesh.Error.{ok, is_err}
use aegis_mesh.Samples.{plain_suite, plain_aes}

abbrev only_key : Bytes
only_key = 1 ∷ 0 ∷ 0 ∷ 0 ∷ []

unfoldable seal_one : Bytes → Bytes → Bytes → Bytes → Option Bytes
seal_one key nonce msg aad = if key == only_key then plain_aes.encrypt key nonce msg aad else none

unfoldable open_one : Bytes → Bytes → Bytes → Bytes → Option Bytes
open_one key nonce ct aad = if key == only_key then plain_aes.decrypt key nonce ct aad else none

seal_one-key :
    (key nonce msg aad ct : Bytes)
    → seal_one key nonce msg aad ≡ some ct
    → ((key == only_key) ≡ true) × (plain_aes.encrypt key nonce msg aad ≡ some ct)
unfolding seal_one
seal_one-key key nonce msg aad ct e = elim (Bool-cases (key == only_key)) [
  | inl p ↦ (p, ground (arith, p, e))
  | inr p ↦ absurd (ground (arith, p, e))
]

open_one-seal_one :
    (key nonce msg aad ct : Bytes)
    → seal_one key nonce msg aad ≡ some ct
    → open_one key nonce ct aad ≡ some msg
unfolding open_one
open_one-seal_one key nonce msg aad ct e =
    let (p, same) = seal_one-key key nonce msg aad ct e in
    rw p (plain_aes.round_trip key nonce msg aad ct same)

abbrev one_aes : Aes256Gcm
one_aes = record {
  encrypt = seal_one;
  decrypt = open_one;
  round_trip = open_one-seal_one;
  tag = λ key nonce msg aad ct e.
      plain_aes.tag key nonce msg aad ct (seal_one-key key nonce msg aad ct e).1;
}

-- A key is the count that it is derived for.
abbrev counted_suite : Suite
counted_suite = record plain_suite {
  hkdf = record { derive = λ key purpose info size. info };
  aes = one_aes;
}

counted_suite-HasDistinctKeys : HasDistinctKeys counted_suite
counted_suite-HasDistinctKeys key key' info info' e = e

counted_suite-IsBound : IsBound counted_suite
unfolding open_one
counted_suite-IsBound key key' nonce msg aad aad' ct e other =
    let first = (==_iff key only_key).0 (seal_one-key key nonce msg aad ct e).0 in
    elim (Bool-cases (key' == only_key)) [
      | inl p ↦ absurd (other (first ∙ sym ((==_iff key' only_key).0 p)))
      | inr p ↦ rw p refl
    ]

-- Two sessions that mirror each other.
abbrev sender : SessionState
sender = record {
  peer_id = 6 ∷ [];
  root_key = 1 ∷ [];
  send_chain_key = 2 ∷ [];
  recv_chain_key = 3 ∷ [];
  send_n = 0;
  recv_n = 0;
  our_ratchet = record { secret = []; public = [] };
  peer_ratchet_public = [];
}

abbrev receiver : SessionState
receiver = record sender { peer_id = 5 ∷ []; send_chain_key = 3 ∷ []; recv_chain_key = 2 ∷ [] }

sender-Mirrors : Mirrors sender receiver
sender-Mirrors = record { root = refl; forth = refl; back = refl; forth_n = refl; back_n = refl }

abbrev nonce : Bytes
nonce = replicate 12 7

abbrev genuine : Bytes
genuine = 7 ∷ 7 ∷ 7 ∷ 7 ∷ 7 ∷ 7 ∷ 7 ∷ 7 ∷ 7 ∷ 7 ∷ 7 ∷ 7 ∷ 104 ∷ 105 ∷ replicate 16 0

sender_encrypts : (encrypt counted_suite sender nonce (104 ∷ 105 ∷ [])).1 ≡ ok (genuine, 1)
unfolding encrypt ratchet_send ratchet_step encrypt_with_aad seal seal_one le_bytes
sender_encrypts = refl

-- After a forged message of one byte the first genuine one is refused.
decrypt-forged_example :
    is_err (decrypt counted_suite (decrypt counted_suite receiver (0 ∷ []) 1).0 genuine 1).1 ≡ true
decrypt-forged_example =
    decrypt-forged counted_suite sender receiver (0 ∷ []) 1 sender
      (decrypt counted_suite receiver (0 ∷ []) 1).0 nonce (104 ∷ 105 ∷ []) genuine 1
      counted_suite-HasDistinctKeys counted_suite-IsBound (omega arith) sender-Mirrors at_once refl
      sender_encrypts
