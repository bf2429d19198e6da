-- ===== src/Crypto/IdentityId.antt =====
-- aegis-mesh/crates/aegis-core/src/crypto/identity.rs: the identifier of a node, the SHA-256 of
-- its verifying key in 64 hexadecimal characters.
use aegis_mesh.Base.{◌≡◌, refl, arith, not, ◌||◌, true, length, ◌==◌, nat_eq, if◌then◌else◌}
use aegis_mesh.Base.Text.{
  Text, all_hexdigits, to_lowercase, length-to_lowercase, to_lowercase_idem,
  all_hexdigits-to_lowercase,
}
use aegis_mesh.Error.{Result, ok, err, invalid}

-- The struct has one field, the text.
abbrev pub IdentityId : Type 0
IdentityId = Text

unfoldable pub from_str : Text → Result IdentityId
from_str s =
    if not (length s == 64) || not (all_hexdigits s) then err invalid else ok (to_lowercase s)

-- The identifiers that `from_str` returns.
pub record IsCanonical (s : IdentityId) : Type 0 where
  pub sized : length s ≡ 64
  pub hexadecimal : all_hexdigits s ≡ true
  pub lower : to_lowercase s ≡ s

pub from_str-IsCanonical : (s t : Text) → from_str s ≡ ok t → IsCanonical t
unfolding from_str
from_str-IsCanonical s t h =
    ground (arith, length-to_lowercase s, to_lowercase_idem s, all_hexdigits-to_lowercase s)

pub from_str_canonical : (s : Text) → IsCanonical s → from_str s ≡ ok s
unfolding from_str
from_str_canonical s c = rw (c.sized, c.hexadecimal, c.lower) refl
