-- ===== src/Crypto/Fingerprint/Display.antt =====
-- aegis-mesh/crates/aegis-core/src/crypto/fingerprint.rs: a displayed fingerprint reads back.
use aegis_mesh.Base.{ℕ, ◌+◌, ◌≡◌, refl, arith, true, false, not, [], ◌∷◌, filter, length, nat_eq}
use aegis_mesh.Base.Text.{Text, all_hexdigits, is_ascii_hexdigit}
use aegis_mesh.Crypto.Primitives.{Hex}
use aegis_mesh.Error.{ok}
use aegis_mesh.Crypto.Fingerprint.{Fingerprint, is_whitespace, spaced, to_hex, to_display, from_hex}

hexdigit-is_whitespace : (c : ℕ) → is_ascii_hexdigit c ≡ true → is_whitespace c ≡ false
unfolding is_ascii_hexdigit is_whitespace
hexdigit-is_whitespace c h = ground arith

space-is_whitespace : is_whitespace b' ' ≡ true
unfolding is_whitespace
space-is_whitespace = refl

filter-spaced :
    (i : ℕ) (s : Text)
    → all_hexdigits s ≡ true
    → filter (λ c. not (is_whitespace c)) (spaced i s) ≡ s
unfolding spaced all_hexdigits
filter-spaced i [] h = refl
filter-spaced i (c ∷ s) h =
    ground (arith, filter-spaced (i + 1) s, hexdigit-is_whitespace c, space-is_whitespace)

-- A fingerprint of twenty bytes is read back from its display, spaces and all.
pub from_hex-to_display :
    (hex : Hex) (fp : Fingerprint) → length fp ≡ 20 → from_hex hex (to_display hex fp) ≡ ok fp
unfolding from_hex to_display to_hex
from_hex-to_display hex fp h =
    rw
      (
        filter-spaced 0 (hex.encode_upper fp) (hex.encode_upper-digits fp),
        hex.encode_upper-decode fp,
      )
      (ground arith)
