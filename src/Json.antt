-- ===== src/Json.antt =====
-- serde_json at one type, which is a parameter: what was written reads back as it was.
use aegis_mesh.Base.{◌≡◌, Option, some}
use aegis_mesh.Base.Text.{Bytes}

pub record Json (A : Type 0) : Type 0 where
  pub to_vec : A → Option Bytes
  pub from_slice : Bytes → Option A
  pub round_trip : (a : A) (bytes : Bytes) → to_vec a ≡ some bytes → from_slice bytes ≡ some a
