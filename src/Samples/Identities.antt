-- ===== src/Samples/Identities.antt =====
-- Identities for the tests, and models of the crates that make and keep them.
use mathlib.Core.Option
use aegis_mesh.Base.{
  ℕ, zero, suc, ◌≡◌, refl, true, Option, none, some, [], ◌∷◌, ◌++◌, ◌==◌, nat_eq, replicate,
  if◌then◌else◌,
}
use aegis_mesh.Base.Text.{Bytes, Text, codes, all_hexdigits, is_ascii_hexdigit}
use aegis_mesh.Crypto.Identity.{Identity, Crates, BlobJson, BlobFields}
use aegis_mesh.Crypto.IdentityId.{IdentityId}
use aegis_mesh.Crypto.Primitives.{Argon2, Bip39, Hex}
use aegis_mesh.Messaging.Envelope.{Envelope, Now}
use aegis_mesh.Messaging.Envelope.Id
use aegis_mesh.Messaging.Envelope.Kind
use aegis_mesh.Messaging.Envelope.Body
use aegis_mesh.Messaging.Envelope.Wire.{Codec}
use aegis_mesh.Samples.{plain_ed25519, plain_hash, bob, table_codec}

-- Keys that are the passphrase and the salt.
abbrev pub plain_argon2 : Argon2
plain_argon2 = record { hash_password_into = λ passphrase salt. some (passphrase ++ salt) }

-- Mnemonics that are their entropy.
abbrev pub plain_bip39 : Bip39
plain_bip39 = record {
  from_entropy = λ entropy. entropy;
  parse_normalized = λ sentence. some sentence;
  to_seed = λ mnemonic. mnemonic;
  from_entropy-parse = λ entropy h. refl;
  parse_normalized_idem = λ sentence mnemonic h. refl;
}

abbrev pub plain_crates : Crates
plain_crates = record {
  ed = plain_ed25519;
  hash = plain_hash;
  bip39 = plain_bip39;
  hmac_sha512 = λ key msg. msg;
  sha512 = λ seed. seed;
  to_montgomery = λ key. key;
}

-- A format that writes a name of one byte in front of the mnemonic.
abbrev short_write : ℕ → Text → Text → Option Bytes
short_write version (c ∷ []) mnemonic = some (c ∷ mnemonic)
short_write version _ mnemonic = none

abbrev short_read : Bytes → Option BlobFields
short_read [] = none
short_read (c ∷ mnemonic) = some (record { display_name = some (c ∷ []); mnemonic = some mnemonic })

pub short_read-write :
    (version : ℕ) (display_name mnemonic : Text) (bytes : Bytes)
    → short_write version display_name mnemonic ≡ some bytes
    → short_read bytes
      ≡ some (record { display_name = some display_name; mnemonic = some mnemonic })
short_read-write version [] mnemonic bytes h = cc
short_read-write version (c ∷ []) mnemonic bytes h =
    let same : c ∷ mnemonic ≡ bytes = cc in rw (← same) refl
short_read-write version (c ∷ d ∷ s) mnemonic bytes h = cc

abbrev pub short_json : BlobJson
short_json = record { to_vec = short_write; from_slice = short_read; round_trip = short_read-write }

-- Identifiers that are twice as long as their keys.
abbrev pub wide_crates : Crates
wide_crates = record plain_crates {
  hash = record { sha256 = λ msg. msg; hex_encode = λ bytes. bytes ++ bytes };
}

-- Digits that count a byte in ones up to a zero.
unary : ℕ → Text → Text
unary zero s = b'0' ∷ s
unary (suc n) s = b'1' ∷ unary n s

pub unary_encode : Bytes → Text
unary_encode [] = []
unary_encode (n ∷ bytes) = unary n (unary_encode bytes)

bump : Option Bytes → Option Bytes
bump (some (n ∷ bytes)) = some (suc n ∷ bytes)
bump _ = none

pub unary_decode : Text → Option Bytes
unary_decode [] = some []
unary_decode (c ∷ s) =
    let rest = unary_decode s in
    if c == b'0' then Option.map (λ bytes. 0 ∷ bytes) rest else bump rest

unary_decode-unary :
    (n : ℕ) (s : Text) (bytes : Bytes)
    → unary_decode s ≡ some bytes
    → unary_decode (unary n s) ≡ some (n ∷ bytes)
unfolding unary_decode unary bump
unary_decode-unary zero s bytes h = rw h refl
unary_decode-unary (suc n) s bytes h = rw (unary_decode-unary n s bytes h) refl

pub unary_decode-unary_encode : (bytes : Bytes) → unary_decode (unary_encode bytes) ≡ some bytes
unfolding unary_encode
unary_decode-unary_encode [] = unfold unary_decode in refl
unary_decode-unary_encode (n ∷ bytes) =
    unary_decode-unary n (unary_encode bytes) bytes (unary_decode-unary_encode bytes)

all_hexdigits-unary : (n : ℕ) (s : Text) → all_hexdigits s ≡ true → all_hexdigits (unary n s) ≡ true
unfolding unary all_hexdigits is_ascii_hexdigit
all_hexdigits-unary zero s h = h
all_hexdigits-unary (suc n) s h = all_hexdigits-unary n s h

pub all_hexdigits-unary_encode : (bytes : Bytes) → all_hexdigits (unary_encode bytes) ≡ true
unfolding unary_encode
all_hexdigits-unary_encode [] = unfold all_hexdigits in refl
all_hexdigits-unary_encode (n ∷ bytes) =
    all_hexdigits-unary n (unary_encode bytes) (all_hexdigits-unary_encode bytes)

abbrev pub unary_hex : Hex
unary_hex = record {
  encode_upper = unary_encode;
  decode = unary_decode;
  encode_upper-decode = unary_decode-unary_encode;
  encode_upper-digits = all_hexdigits-unary_encode;
}

abbrev pub anna_key : Bytes
anna_key = replicate 32 b'9'

abbrev pub anna_id : IdentityId
anna_id = replicate 64 b'9'

-- The identity that 32 digits nine make.
abbrev pub anna : Identity
anna = record {
  display_name = b'A' ∷ [];
  mnemonic = anna_key;
  signing_key = anna_key;
  id = anna_id;
}

abbrev pub anna_salt : Bytes
anna_salt = replicate 16 3

abbrev pub anna_nonce : Bytes
anna_nonce = replicate 12 7

abbrev pub anna_blob : Bytes
anna_blob = 1 ∷ (anna_salt ++ (anna_nonce ++ (b'A' ∷ (anna_key ++ replicate 16 0))))

abbrev pub noon : Now
noon = record { id_ns = 1_000_000_000_000; stamp_ns = 1_000_000_000_001 }

-- What Anna signs for Bob, and the signed message.
abbrev pub greeting : Envelope
greeting = record {
  version = 1;
  id = Id.new 1_000_000_000_000;
  kind = Kind.direct;
  sender = anna_id;
  recipient = some bob;
  channel = none;
  payload = Body.text (codes "hi");
  timestamp_ns = 1_000_000_000_001;
  ttl = 10;
  hops = 0;
  priority = 2;
  flags = 8;
  signature = none;
}

abbrev pub signed_greeting : Envelope
signed_greeting = record greeting { signature = some (anna_key ++ 0 ∷ []) }

abbrev pub greeting_codec : Codec
greeting_codec = table_codec (greeting ∷ signed_greeting ∷ [])
