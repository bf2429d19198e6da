-- ===== src/Samples.antt =====
-- The values that the tests use: identities, an envelope, and models of the crates that the program
-- calls.
pub mod Identities
use mathlib.Core.List.{append_cancel_left}
use mathlib.Core.Option
use native.Mathlib.Decide.{ℕ_discrete}
use aegis_mesh.Base.{
  length, length-append, take, take-append, ◌+◌, ◌-◌, ℕ, ◌≡◌, refl, sym, ap, ◌⊎◌, inl, inr,
  Option-cases, arith, zero, suc, true, Option, none, some, List, [], ◌∷◌, ◌++◌, replicate, ◌==◌,
  ==_iff, ==_refl, nat_eq, list_eq,
}
use aegis_mesh.Base.Text.{Bytes}
use aegis_mesh.Crypto.IdentityId.{IdentityId}
use aegis_mesh.Crypto.KeyAgreement.{ed25519_to_x25519_secret}
use aegis_mesh.Crypto.Primitives.{Ed25519, Hash, X25519, Aes256Gcm}
use aegis_mesh.Crypto.Signal.{Suite}
use aegis_mesh.Json.{Json}
use aegis_mesh.Messaging.Envelope.{Envelope, IsTyped}
use aegis_mesh.Messaging.Envelope.Id.{EnvelopeId}
use aegis_mesh.Messaging.Envelope.Kind.{EnvelopeType}
use aegis_mesh.Messaging.Envelope.Body.{Payload}
use aegis_mesh.Messaging.Envelope.Kind
use aegis_mesh.Messaging.Envelope.Body
use aegis_mesh.Messaging.Envelope.Wire.{Codec}

abbrev pub alice : IdentityId
alice = replicate 64 b'a'

abbrev pub bob : IdentityId
bob = replicate 64 b'b'

abbrev pub carol : IdentityId
carol = replicate 64 b'c'

abbrev pub message_id : EnvelopeId
message_id = replicate 32 b'0'

-- A direct message from Alice to Bob, sent a thousand seconds after the epoch.
abbrev pub message : Envelope
message = record {
  version = 1;
  id = message_id;
  kind = Kind.direct;
  sender = alice;
  recipient = some bob;
  channel = none;
  payload = Body.text (104 ∷ 105 ∷ []);
  timestamp_ns = 1_000_000_000_000;
  ttl = 5;
  hops = 0;
  priority = 2;
  flags = 0;
  signature = none;
}

-- A signature that repeats the key and the message.
abbrev pub plain_ed25519 : Ed25519
plain_ed25519 = record {
  is_verifying_key = λ key. true;
  verifying_key = λ key. key;
  sign = λ key msg. key ++ msg;
  verify = λ key msg sig. key ++ msg == sig;
  verifying_key-valid = λ key. refl;
  sign-verify = λ key msg. ==_refl (key ++ msg);
}

pub plain_binding :
    (key m m' : Bytes)
    → plain_ed25519.verify (plain_ed25519.verifying_key key) m' (plain_ed25519.sign key m) ≡ true
    → m ≡ m'
plain_binding key m m' h = sym (append_cancel_left key m' m ((==_iff (key ++ m') (key ++ m)).0 h))

abbrev pub plain_hash : Hash
plain_hash = record { sha256 = λ msg. msg; hex_encode = λ bytes. bytes }

unfoldable pub EnvelopeType-discrete : Discrete EnvelopeType
EnvelopeType-discrete = hlevel

unfoldable pub Payload-discrete : Discrete Payload
Payload-discrete = hlevel (ℕ_discrete)

unfoldable pub Envelope-discrete : Discrete Envelope
Envelope-discrete = hlevel (ℕ_discrete, EnvelopeType-discrete, Payload-discrete)

abbrev place : {P : Type 0} → Dec P → Option ℕ → Option ℕ
place (yes same) later = some 0
place (no other) later = Option.map suc later

-- The place of a value in a list, and the value at a place.
abbrev position : {A : Type 0} → Discrete A → List A → A → Option ℕ
position d [] e = none
position d (x ∷ xs) e = place (d x e) (position d xs e)

place_lem :
    {P : Type 0} (d : Dec P) (later : Option ℕ) (n : ℕ)
    → place d later ≡ some n
    → (P × (n ≡ 0)) ⊎ ((m : ℕ) × (later ≡ some m) × (n ≡ suc m))
place_lem (yes same) later n h = inl (same, ground arith)
place_lem (no other) none n h = cc
place_lem (no other) (some m) n h = inr (m, refl, ground arith)

abbrev entry : {A : Type 0} → List A → ℕ → Option A
entry [] n = none
entry (x ∷ xs) zero = some x
entry (x ∷ xs) (suc n) = entry xs n

entry-position :
    {A : Type 0} (d : Discrete A) (xs : List A) (e : A) (n : ℕ)
    → position d xs e ≡ some n
    → entry xs n ≡ some e
entry-position d [] e n h = cc
entry-position d (x ∷ xs) e n h = elim (place_lem (d x e) (position d xs e) n h) [
  | inl (same, first) ↦ rw first (ap some same)
  | inr (m, found, later) ↦ rw later (entry-position d xs e m found)
]

-- A format that has the values of a list, each as its place in the list.
abbrev pub write : {A : Type 0} → Discrete A → List A → A → Option Bytes
write d xs e = Option.map (λ n. n ∷ []) (position d xs e)

abbrev pub read : {A : Type 0} → List A → Bytes → Option A
read xs (n ∷ []) = entry xs n
read xs _ = none

pub read-write :
    {A : Type 0} (d : Discrete A) (xs : List A) (e : A) (b : Bytes)
    → write d xs e ≡ some b
    → read xs b ≡ some e
read-write d xs e b h = elim (Option-cases (position d xs e)) [
  | inl p ↦ absurd (ground (arith, p))
  | inr (n, p) ↦
      let bytes : n ∷ [] ≡ b = ground (arith, p) in rw (← bytes) (entry-position d xs e n p)
]

abbrev pub table_json : {A : Type 0} → Discrete A → List A → Json A
table_json d xs = record { to_vec = write d xs; from_slice = read xs; round_trip = read-write d xs }

abbrev pub table_codec : List Envelope → Codec
table_codec xs = record {
  to_vec = write Envelope-discrete xs;
  from_slice = read xs;
  round_trip = λ e b typed h. read-write Envelope-discrete xs e b h;
}

pub message-IsTyped : IsTyped message
message-IsTyped = record {
  version = omega arith;
  timestamp_ns = omega arith;
  ttl = omega arith;
  hops = omega arith;
  priority = omega arith;
  flags = omega arith;
}

pub plain_open : (msg ct : Bytes) → ct ≡ msg ++ replicate 16 0 → take (length ct - 16) ct ≡ msg
plain_open msg ct e =
    let size : length ct - 16 ≡ length msg =
      omega (arith, ap length e, length-append msg (replicate 16 0)) in
    rw (size, e) (take-append msg (replicate 16 0))

pub plain_same :
    (msg ct : Bytes) → some (msg ++ replicate 16 0) ≡ some ct → ct ≡ msg ++ replicate 16 0
plain_same msg ct e = cc

-- A cipher that leaves the message readable and adds sixteen zeros.
abbrev pub plain_aes : Aes256Gcm
plain_aes = record {
  encrypt = λ key nonce msg aad. some (msg ++ replicate 16 0);
  decrypt = λ key nonce ct aad. some (take (length ct - 16) ct);
  round_trip = λ key nonce msg aad ct e. ap some (plain_open msg ct (plain_same msg ct e));
  tag = λ key nonce msg aad ct e.
      omega (arith, ap length (plain_same msg ct e), length-append msg (replicate 16 0));
}

-- A curve on which a shared key is the number of the bytes of both secrets.
abbrev pub plain_x25519 : X25519
plain_x25519 = record {
  public_key = λ secret. secret;
  diffie_hellman = λ a b. (length a + length b) ∷ [];
  agreement = λ a b. ap (λ n. n ∷ []) (omega arith);
}

abbrev pub plain_suite : Suite
plain_suite = record {
  ed = plain_ed25519;
  hash = plain_hash;
  sha512 = λ seed. seed;
  x = plain_x25519;
  hkdf = record { derive = λ master salt info n. master ++ (salt ++ info) };
  aes = plain_aes;
  to_montgomery = λ key. ed25519_to_x25519_secret (λ seed. seed) key;
  conversion = λ seed. refl;
}
