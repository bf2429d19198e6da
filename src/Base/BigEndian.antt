-- ===== src/Base/BigEndian.antt =====
-- Words as big-endian bytes.
use aegis_mesh.Base.Lists.{length, drop}
use aegis_mesh.Base.Text.{Bytes, be_bytes}
use Prim.Native.Nat.{ℕ, zero, suc, ◌+◌, ◌*◌, ◌/◌, ◌%◌, ◌^◌, ◌<◌}
use mathlib.Core.Path.{◌≡◌, refl, sym, ap, ◌∙◌}
use mathlib.Core.List.{List, [], ◌∷◌, ◌++◌}
use native.Mathlib.Omega.{arith}

unfoldable pub from_be_after : ℕ → Bytes → ℕ
from_be_after acc [] = acc
from_be_after acc (b ∷ bs) = from_be_after (acc * 256 + b) bs

-- `from_be_bytes`
unfoldable pub from_be_bytes : Bytes → ℕ
from_be_bytes bs = from_be_after 0 bs

from_be_after-append :
    (acc : ℕ) (bs : Bytes) (b : ℕ)
    → from_be_after acc (bs ++ b ∷ []) ≡ from_be_after acc bs * 256 + b
unfolding from_be_after
from_be_after-append acc [] b = refl
from_be_after-append acc (x ∷ bs) b = from_be_after-append (acc * 256 + x) bs b

pub from_be_bytes-be_bytes : (w n : ℕ) → n < 256 ^ w → from_be_bytes (be_bytes w n) ≡ n
unfolding from_be_bytes be_bytes from_be_after
from_be_bytes-be_bytes zero n h = omega arith
from_be_bytes-be_bytes (suc w) n h = omega (
  arith,
  from_be_after-append 0 (be_bytes w (n / 256)) (n % 256),
  from_be_bytes-be_bytes w (n / 256) (omega (arith, h)),
)

-- The bytes of two words of one width differ where the words do.
pub be_bytes-injective :
    (w m n : ℕ) → m < 256 ^ w → n < 256 ^ w → be_bytes w m ≡ be_bytes w n → m ≡ n
be_bytes-injective w m n hm hn e =
    sym (from_be_bytes-be_bytes w m hm) ∙ ap from_be_bytes e ∙ from_be_bytes-be_bytes w n hn

-- Lists that begin with parts of one length are equal part by part.
pub append-injective {ℓ} :
    {A : Type ℓ} (xs ys us vs : List A)
    → length xs ≡ length ys
    → xs ++ us ≡ ys ++ vs
    → (xs ≡ ys) × (us ≡ vs)
append-injective [] [] us vs l e = (refl, e)
append-injective [] (y ∷ ys) us vs l e = absurd (omega arith)
append-injective (x ∷ xs) [] us vs l e = absurd (omega arith)
append-injective (x ∷ xs) (y ∷ ys) us vs l e =
    let rest = append-injective xs ys us vs (omega arith) (ap (drop 1) e) in
    (ground (arith, rest.0), rest.1)
