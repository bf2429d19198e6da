-- ===== src/Base/Text.antt =====
-- Bytes and texts. A Rust `String` is a vector of UTF-8 bytes, and so is a `Text`: `len` counts
-- bytes, and `as_bytes` is the text itself.
use Prim.Native.Char.{code}
use Prim.Native.String.{String}
use Prim.Native.Nat.{ℕ, zero, suc, ◌+◌, ◌-◌, ◌/◌, ◌%◌, ◌<◌}
use mathlib.Core.Path.{◌≡◌, refl}
use mathlib.Core.Bool.{Bool, true, ◌&&◌, ◌||◌}
use mathlib.Core.List.{List, [], ◌∷◌, ◌++◌}
use native.Mathlib.Omega.{arith}
use aegis_mesh.Base.Tests.{ltb, leb, if◌then◌else◌}
use aegis_mesh.Base.Lists.{length, length-append}

abbrev pub Bytes : Type 0
Bytes = List ℕ

abbrev pub Text : Type 0
Text = List ℕ

-- An ASCII literal of the source.
abbrev pub codes : String → Text
codes String.[] = []
codes (String.◌∷◌ c s) = code c ∷ codes s

-- `u8::is_ascii_hexdigit`. Over the bytes of a text it passes exactly when it passes over the
-- characters, since every byte of a character beyond ASCII is at least 128.
unfoldable pub is_ascii_hexdigit : ℕ → Bool
is_ascii_hexdigit c =
    leb b'0' c && leb c b'9' || leb b'a' c && leb c b'f' || leb b'A' c && leb c b'F'

unfoldable pub all_hexdigits : Text → Bool
unfolding is_ascii_hexdigit
all_hexdigits [] = true
all_hexdigits (c ∷ s) = is_ascii_hexdigit c && all_hexdigits s

unfoldable pub lowercase_byte : ℕ → ℕ
lowercase_byte c = if leb b'A' c && leb c b'Z' then c + 32 else c

-- `to_lowercase` of a text that is ASCII.
unfoldable pub to_lowercase : Text → Text
unfolding lowercase_byte
to_lowercase [] = []
to_lowercase (c ∷ s) = lowercase_byte c ∷ to_lowercase s

-- A lowercase hexadecimal digit.
unfoldable pub hex_digit : ℕ → ℕ
hex_digit n = if ltb n 10 then b'0' + n else b'a' + (n - 10)

-- `format!("{n:0wx}")` of a number below 16 ^ w.
unfoldable pub hex_padded : ℕ → ℕ → Text
unfolding hex_digit
hex_padded zero n = []
hex_padded (suc w) n = hex_padded w (n / 16) ++ hex_digit (n % 16) ∷ []

-- `to_be_bytes` of a word of `w` bytes.
unfoldable pub be_bytes : ℕ → ℕ → Bytes
be_bytes zero n = []
be_bytes (suc w) n = be_bytes w (n / 256) ++ n % 256 ∷ []

pub length-be_bytes : (w n : ℕ) → length (be_bytes w n) ≡ w
unfolding be_bytes
length-be_bytes zero n = refl
length-be_bytes (suc w) n =
    omega (arith, length-append (be_bytes w (n / 256)) (n % 256 ∷ []), length-be_bytes w (n / 256))

pub length-hex_padded : (w n : ℕ) → length (hex_padded w n) ≡ w
unfolding hex_padded
length-hex_padded zero n = refl
length-hex_padded (suc w) n = omega (
  arith,
  length-append (hex_padded w (n / 16)) (hex_digit (n % 16) ∷ []),
  length-hex_padded w (n / 16),
)

pub length-to_lowercase : (s : Text) → length (to_lowercase s) ≡ length s
unfolding to_lowercase
length-to_lowercase [] = refl
length-to_lowercase (c ∷ s) = omega (arith, length-to_lowercase s)

pub all_hexdigits-append :
    (s t : Text) → all_hexdigits (s ++ t) ≡ (all_hexdigits s && all_hexdigits t)
unfolding all_hexdigits
all_hexdigits-append [] t = refl
all_hexdigits-append (c ∷ s) t = ground (arith, all_hexdigits-append s t)

pub to_lowercase-append : (s t : Text) → to_lowercase (s ++ t) ≡ to_lowercase s ++ to_lowercase t
unfolding to_lowercase
to_lowercase-append [] t = refl
to_lowercase-append (c ∷ s) t = ground (arith, to_lowercase-append s t)

pub to_lowercase_idem : (s : Text) → to_lowercase (to_lowercase s) ≡ to_lowercase s
unfolding to_lowercase
to_lowercase_idem [] = refl
to_lowercase_idem (c ∷ s) = ground (arith, to_lowercase_idem s)

pub all_hexdigits-to_lowercase :
    (s : Text) → all_hexdigits s ≡ true → all_hexdigits (to_lowercase s) ≡ true
unfolding all_hexdigits to_lowercase
all_hexdigits-to_lowercase [] h = refl
all_hexdigits-to_lowercase (c ∷ s) h = ground (arith, all_hexdigits-to_lowercase s)

hex_digit-is_ascii_hexdigit : (n : ℕ) → n < 16 → is_ascii_hexdigit (hex_digit n) ≡ true
unfolding is_ascii_hexdigit hex_digit
hex_digit-is_ascii_hexdigit n h = ground arith

lowercase_byte-hex_digit : (n : ℕ) → n < 16 → lowercase_byte (hex_digit n) ≡ hex_digit n
unfolding lowercase_byte hex_digit
lowercase_byte-hex_digit n h = ground arith

pub all_hexdigits-hex_padded : (w n : ℕ) → all_hexdigits (hex_padded w n) ≡ true
unfolding hex_padded all_hexdigits
all_hexdigits-hex_padded zero n = refl
all_hexdigits-hex_padded (suc w) n =
    rw (all_hexdigits-append (hex_padded w (n / 16)) (hex_digit (n % 16) ∷ [])) (
      ground (
        arith,
        all_hexdigits-hex_padded w (n / 16),
        hex_digit-is_ascii_hexdigit (n % 16) (omega arith),
      ))

pub to_lowercase-hex_padded : (w n : ℕ) → to_lowercase (hex_padded w n) ≡ hex_padded w n
unfolding hex_padded to_lowercase
to_lowercase-hex_padded zero n = refl
to_lowercase-hex_padded (suc w) n =
    rw (to_lowercase-append (hex_padded w (n / 16)) (hex_digit (n % 16) ∷ [])) (
      ground (
        arith,
        to_lowercase-hex_padded w (n / 16),
        lowercase_byte-hex_digit (n % 16) (omega arith),
      ))
