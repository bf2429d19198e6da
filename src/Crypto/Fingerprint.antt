-- ===== src/Crypto/Fingerprint.antt =====
-- aegis-mesh/crates/aegis-core/src/crypto/fingerprint.rs: fingerprints of keys, their display, and
-- the safety number of two of them. SHA-256 and hex are parameters. A text is the list of its
-- characters here.
pub mod Display
pub mod Safety
use aegis_mesh.Base.{
  ℕ, zero, suc, ◌+◌, ◌-◌, ◌/◌, ◌%◌, ◌^◌, Bool, true, false, not, ◌&&◌, ◌||◌, Option, [], ◌∷◌, ◌++◌,
  take, filter, length, ltb, leb, ◌==◌, nat_eq, list_eq, if◌then◌else◌,
}
use aegis_mesh.Base.BigEndian.{from_be_bytes}
use aegis_mesh.Base.Text.{Bytes, Text}
use aegis_mesh.Crypto.Primitives.{Hash, Hex}
use aegis_mesh.Error.{Result, ok, err, ok_or, ◌>>=◌, encoding, invalid}

-- The struct has one field, the 20 bytes.
abbrev pub Fingerprint : Type 0
Fingerprint = Bytes

unfoldable pub from_public_key : Hash → Bytes → Fingerprint
from_public_key hash pubkey = take 20 (hash.sha256 pubkey)

unfoldable pub ct_eq : Fingerprint → Fingerprint → Bool
ct_eq a b = a == b

-- The characters of White_Space.
unfoldable pub is_whitespace : ℕ → Bool
is_whitespace c =
    leb 9 c && leb c 13
    || c == 32
    || c == 0x85
    || c == 0xA0
    || c == 0x1680
    || leb 0x2000 c && leb c 0x200A
    || c == 0x2028
    || c == 0x2029
    || c == 0x202F
    || c == 0x205F
    || c == 0x3000

-- A space before every fourth character but the first, from the place `i` on.
unfoldable pub spaced : ℕ → Text → Text
spaced i [] = []
spaced i (c ∷ s) =
    let rest = spaced (i + 1) s in if ltb 0 i && i % 4 == 0 then b' ' ∷ c ∷ rest else c ∷ rest

module _ (hex : Hex) where
  unfoldable pub to_hex : Fingerprint → Text
  to_hex fp = hex.encode_upper fp

  unfoldable pub to_display : Fingerprint → Text
  to_display fp = spaced 0 (to_hex fp)

  unfoldable pub from_hex : Text → Result Fingerprint
  from_hex s = do
    bytes ← ok_or (hex.decode (filter (λ c. not (is_whitespace c)) s)) encoding
    if length bytes == 20 then ok bytes else err invalid

-- The order of arrays.
unfoldable pub array_le : Bytes → Bytes → Bool
array_le [] bs = true
array_le (a ∷ as') [] = false
array_le (a ∷ as') (b ∷ bs) = ltb a b || a == b && array_le as' bs

-- `format!("{n:0w}")` of a number below 10 ^ w.
unfoldable pub decimal_padded : ℕ → ℕ → Text
decimal_padded zero n = []
decimal_padded (suc w) n = decimal_padded w (n / 10) ++ (b'0' + n % 10) ∷ []

-- The first half of the hash, as a number of 30 digits.
unfoldable pub thirty_digits : Bytes → Text
thirty_digits hash = decimal_padded 30 (from_be_bytes (take 16 hash) % 10 ^ 30)

unfoldable pub digits_of : Hash → Fingerprint → Fingerprint → Text
digits_of hash a b =
    let hash1 = hash.sha256 (a ++ b) in
    let hash2 = hash.sha256 (hash1 ++ (a ++ b)) in thirty_digits hash1 ++ thirty_digits hash2

unfoldable pub safety_number : Hash → Fingerprint → Fingerprint → Text
safety_number hash self other =
    if array_le self other then digits_of hash self other else digits_of hash other self
