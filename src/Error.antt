-- ===== src/Error.antt =====
-- aegis-mesh/crates/aegis-core/src/error.rs: the error type, its conversions, and `Result`.
use mathlib.Core.Path.{◌≡◌, refl}
use mathlib.Core.Logic.{◌⊎◌, inl, inr}
use mathlib.Core.Bool.{Bool, true, false}
use mathlib.Core.Option.{Option, none, some}

pub data AegisError : Type 0 where
  crypto invalid storage transport mesh encoding io json sqlite : AegisError
  signature stale rate_limited queue_full other : AegisError

-- The foreign error types that `?` converts.
pub data ForeignError : Type 0 where
  io_error serde_json_error rusqlite_error aead_error : ForeignError
  signature_error from_hex_error decode_error : ForeignError

unfoldable pub from : ForeignError → AegisError
from io_error = io
from serde_json_error = json
from rusqlite_error = sqlite
from aead_error = crypto
from signature_error = signature
from from_hex_error = encoding
from decode_error = encoding

pub data Result {ℓ} (A : Type ℓ) : Type ℓ where
  ok : A → Result A
  err : AegisError → Result A

infixl 5 ◌>>=◌ ◌>>◌
abbrev pub ◌>>=◌ {ℓ κ} : {A : Type ℓ} {B : Type κ} → Result A → (A → Result B) → Result B
ok value >>= next = next value
err e >>= next = err e

abbrev pub ◌>>◌ {ℓ} : {B : Type ℓ} → Result (Unit {0}) → Result B → Result B
ok done >> next = next
err e >> next = err e

-- `if !test { return Err(e); }`
abbrev pub ensure : Bool → AegisError → Result (Unit {0})
ensure true e = ok tt
ensure false e = err e

-- `ok_or`, and `map_err(|_| e)` of a foreign result that is kept as an option
abbrev pub ok_or {ℓ} : {A : Type ℓ} → Option A → AegisError → Result A
ok_or none e = err e
ok_or (some a) e = ok a

abbrev pub is_err {ℓ} : {A : Type ℓ} → Result A → Bool
is_err (ok a) = false
is_err (err e) = true

pub Result-cases {ℓ} :
    {A : Type ℓ} (r : Result A) → ((a : A) × (r ≡ ok a)) ⊎ ((e : AegisError) × (r ≡ err e))
Result-cases (ok a) = inl (a, refl)
Result-cases (err e) = inr (e, refl)
