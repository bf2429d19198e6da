-- ===== src/Messaging/Envelope/Id.antt =====
-- aegis-mesh/crates/aegis-core/src/messaging/envelope.rs: `EnvelopeId`. The clock is an argument,
-- in nanoseconds since the epoch; the random part that `new` draws is not used by it.
use aegis_mesh.Base.{
  ℕ, zero, suc, ◌+◌, ◌-◌, ◌*◌, ◌/◌, ◌%◌, ◌^◌, ◌<◌, ◌≡◌, ◌↔◌, refl, ap, arith, not, ◌||◌, [], ◌∷◌,
  ◌++◌, length, ◌==◌, nat_eq, ltb, if◌then◌else◌,
}
use native.Mathlib.Nat.{pow-suc}
use aegis_mesh.Base.Text.{
  Text, all_hexdigits, to_lowercase, hex_digit, hex_padded, length-hex_padded,
  all_hexdigits-hex_padded, to_lowercase-hex_padded,
}
use aegis_mesh.Error.{Result, ok, err, invalid}

abbrev pub EnvelopeId : Type 0
EnvelopeId = Text

unfoldable pub new : ℕ → EnvelopeId
new ts = hex_padded 32 ts

unfoldable pub from_str : Text → Result EnvelopeId
from_str s =
    if not (length s == 32) || not (all_hexdigits s) then err invalid else ok (to_lowercase s)

-- The number that lowercase hexadecimal digits stand for.
digit_value : ℕ → ℕ
digit_value c = if ltb c b'a' then c - b'0' else c - b'a' + 10

value_from : ℕ → Text → ℕ
value_from acc [] = acc
value_from acc (c ∷ s) = value_from (acc * 16 + digit_value c) s

value_from-append :
    (acc : ℕ) (s : Text) (c : ℕ)
    → value_from acc (s ++ c ∷ []) ≡ value_from acc s * 16 + digit_value c
unfolding value_from
value_from-append acc [] c = refl
value_from-append acc (d ∷ s) c = value_from-append (acc * 16 + digit_value d) s c

digit_value-hex_digit : (n : ℕ) → n < 16 → digit_value (hex_digit n) ≡ n
unfolding digit_value hex_digit
digit_value-hex_digit n h = ground arith

value_from-hex_padded : (w n : ℕ) → n < 16 ^ w → value_from 0 (hex_padded w n) ≡ n
unfolding hex_padded value_from
value_from-hex_padded zero n h = omega arith
value_from-hex_padded (suc w) n h = omega (
  arith,
  pow-suc 16 w,
  value_from-append 0 (hex_padded w (n / 16)) (hex_digit (n % 16)),
  digit_value-hex_digit (n % 16) (omega arith),
  value_from-hex_padded w (n / 16) (omega (arith, pow-suc 16 w)),
)

-- An identifier parses back to itself, and two identifiers are equal exactly when they were made
-- at the same nanosecond of the 128-bit clock.
pub new-from_str :
    (ts t : ℕ)
    → ts < 16 ^ 32
    → t < 16 ^ 32
    → (from_str (new ts) ≡ ok (new ts)) × ((new ts ≡ new t) ↔ (ts ≡ t))
unfolding new from_str
new-from_str ts t h k = (
  rw (length-hex_padded 32 ts, all_hexdigits-hex_padded 32 ts, to_lowercase-hex_padded 32 ts) refl,
  (
    (λ e.
        omega (
          arith,
          value_from-hex_padded 32 ts h,
          value_from-hex_padded 32 t k,
          ap (value_from 0) e,
        )),
    ap (hex_padded 32),
  ),
)
