-- ===== src/Base/Reply.antt =====
-- Results whose error is a type of the caller: `anyhow::Result` of the command line, and the
-- `Result` of the FFI.
use mathlib.Core.Path.{◌≡◌, refl}
use mathlib.Core.Logic.{◌⊎◌, inl, inr}
use mathlib.Core.Bool.{Bool, true, false}
use mathlib.Core.Option.{Option, none, some}
use aegis_mesh.Error.{AegisError, Result, ok, err}

pub data Reply (E A : Type 0) : Type 0 where
  done : A → Reply E A
  failed : E → Reply E A

infixl 5 ◌>>=◌ ◌>>◌
abbrev pub ◌>>=◌ : {E A B : Type 0} → Reply E A → (A → Reply E B) → Reply E B
done value >>= next = next value
failed e >>= next = failed e

abbrev pub ◌>>◌ : {E B : Type 0} → Reply E (Unit {0}) → Reply E B → Reply E B
done value >> next = next
failed e >> next = failed e

abbrev pub require : {E : Type 0} → Bool → E → Reply E (Unit {0})
require true e = done tt
require false e = failed e

-- `ok_or_else`
abbrev pub done_or : {E A : Type 0} → Option A → E → Reply E A
done_or none e = failed e
done_or (some a) e = done a

-- `map_err`, also of a `?` that converts the error
abbrev pub map_err : {E A : Type 0} → (AegisError → E) → Result A → Reply E A
map_err f (ok a) = done a
map_err f (err e) = failed (f e)

pub Reply-cases :
    {E A : Type 0} (r : Reply E A) → ((a : A) × (r ≡ done a)) ⊎ ((e : E) × (r ≡ failed e))
Reply-cases (done a) = inl (a, refl)
Reply-cases (failed e) = inr (e, refl)
