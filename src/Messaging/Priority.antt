-- ===== src/Messaging/Priority.antt =====
-- aegis-mesh/crates/aegis-core/src/messaging/priority.rs
use aegis_mesh.Base.{ℕ, zero, suc, ◌<◌, ◌≤◌, ◌≡◌, refl, Option, none, some, arith}

pub data Priority : Type 0 where
  emergency high normal low bulk : Priority

unfoldable pub as_u8 : Priority → ℕ
as_u8 emergency = 0
as_u8 high = 1
as_u8 normal = 2
as_u8 low = 3
as_u8 bulk = 4

unfoldable pub from_u8 : ℕ → Option Priority
from_u8 zero = some emergency
from_u8 (suc zero) = some high
from_u8 (suc (suc zero)) = some normal
from_u8 (suc (suc (suc zero))) = some low
from_u8 (suc (suc (suc (suc zero)))) = some bulk
from_u8 (suc (suc (suc (suc (suc v))))) = none

-- A byte converts to a priority exactly when it is that priority's number, and to none above 4.
pub from_u8-as_u8 :
    ((p : Priority) → from_u8 (as_u8 p) ≡ some p)
    × ((v : ℕ) (p : Priority) → from_u8 v ≡ some p → as_u8 p ≡ v)
    × ((v : ℕ) → 4 < v → from_u8 v ≡ none)
unfolding from_u8 as_u8
from_u8-as_u8 = (print, parse, above)
  where
    print : (p : Priority) → from_u8 (as_u8 p) ≡ some p
    print emergency = refl
    print high = refl
    print normal = refl
    print low = refl
    print bulk = refl

    parse : (v : ℕ) (p : Priority) → from_u8 v ≡ some p → as_u8 p ≡ v
    parse v p h = ground arith

    above : (v : ℕ) → 4 < v → from_u8 v ≡ none
    above v h = ground arith

pub as_u8-le-four : (p : Priority) → as_u8 p ≤ 4
unfolding as_u8
as_u8-le-four p = ground arith
