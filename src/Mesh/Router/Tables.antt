-- ===== src/Mesh/Router/Tables.antt =====
-- aegis-mesh/crates/aegis-core/src/mesh/router.rs: the well-formed tables, and what removing routes
-- and collecting the duplicate filter leave.
use aegis_mesh.Base.{
  ℕ, ◌-◌, ◌≡◌, ◌≢◌, ◌↔◌, true, not, Option, none, some, arith, ltb, ◌==◌, ==_iff, nat_eq, list_eq,
  if◌then◌else◌,
}
use aegis_mesh.Base.Map
use aegis_mesh.Base.Map.{
  IsDistinct, get-retain, get-insert, contains_key-get, insert-IsDistinct, remove-IsDistinct,
  retain-IsDistinct, keep_if,
}
use aegis_mesh.Crypto.IdentityId.{IdentityId}
use aegis_mesh.Messaging.Envelope.Id.{EnvelopeId}
use aegis_mesh.Mesh.Router.{
  RouteEntry, RouteTable, new_table, update, get, remove, remove_routes_via, check_and_record,
  gc_seen,
}

-- In neither table does a key stand twice.
pub record IsTable (t : RouteTable) : Type 0 where
  pub routes : IsDistinct t.routes
  pub seen : IsDistinct t.seen_messages

pub new_table-IsTable : IsTable new_table
unfolding new_table
new_table-IsTable = record { routes = tt; seen = tt }

pub update-IsTable :
    (t : RouteTable) (d : IdentityId) (e : RouteEntry) → IsTable t → IsTable (update t d e).0
unfolding update
update-IsTable t d e i = ground (arith, insert-IsDistinct t.routes d e i.routes)

pub remove-IsTable : (t : RouteTable) (d : IdentityId) → IsTable t → IsTable (remove t d)
unfolding remove
remove-IsTable t d i = record { routes = remove-IsDistinct t.routes d i.routes; seen = i.seen }

pub remove_routes_via-IsTable :
    (t : RouteTable) (via : IdentityId) → IsTable t → IsTable (remove_routes_via t via)
unfolding remove_routes_via
remove_routes_via-IsTable t via i = record {
  routes = retain-IsDistinct _ t.routes i.routes;
  seen = i.seen;
}

pub check_and_record-IsTable :
    (t : RouteTable) (instant : ℕ) (id : EnvelopeId)
    → IsTable t
    → IsTable (check_and_record t instant id).0
unfolding check_and_record
check_and_record-IsTable t instant id i =
    ground (arith, insert-IsDistinct t.seen_messages id instant i.seen)

pub gc_seen-IsTable : (t : RouteTable) (now : ℕ) → IsTable t → IsTable (gc_seen t now)
unfolding gc_seen
gc_seen-IsTable t now i = record {
  routes = i.routes;
  seen = retain-IsDistinct _ t.seen_messages i.seen;
}

keep_other_way :
    (via d : IdentityId) (o : Option RouteEntry) (e : RouteEntry)
    → (keep_if (λ (_ : IdentityId) (r : RouteEntry). not (r.next_hop == via)) d o ≡ some e)
      ↔ ((o ≡ some e) × (e.next_hop ≢ via))
keep_other_way via d none e = ((λ h. cc), (λ h. cc))
keep_other_way via d (some x) e =
    ((λ h. ground (arith, ==_iff x.next_hop via)), (λ h. ground (arith, ==_iff x.next_hop via)))

-- After the routes via a neighbour are removed, what is left is exactly the routes that go another
-- way, each as it was.
pub get-remove_routes_via :
    (t : RouteTable) (via d : IdentityId) (e : RouteEntry)
    → IsTable t
    → (get (remove_routes_via t via) d ≡ some e) ↔ ((get t d ≡ some e) × (e.next_hop ≢ via))
unfolding get remove_routes_via
get-remove_routes_via t via d e i =
    rw (get-retain (λ _ r. not (r.next_hop == via)) t.routes d i.routes)
      (keep_other_way via d (Map.get t.routes d) e)

-- When `id` was recorded, if it is there.
abbrev pub seen_at : RouteTable → EnvelopeId → Option ℕ
seen_at t id = Map.get t.seen_messages id

-- A collection keeps an identifier exactly while it is younger than `seen_ttl`.
pub seen_at-gc_seen :
    (t : RouteTable) (now : ℕ) (id : EnvelopeId)
    → IsTable t
    → seen_at (gc_seen t now) id ≡ keep_if (λ _ ts. ltb (now - ts) t.seen_ttl) id (seen_at t id)
unfolding gc_seen
seen_at-gc_seen t now id i = get-retain _ t.seen_messages id i.seen

-- An identifier passes exactly when it is not recorded.
pub check_and_record_lem :
    (t : RouteTable) (instant : ℕ) (id : EnvelopeId)
    → ((check_and_record t instant id).1 ≡ true) ↔ (seen_at t id ≡ none)
unfolding check_and_record
check_and_record_lem t instant id = ground (arith, contains_key-get t.seen_messages id)

-- Then it is recorded at this instant, and no record of an identifier that was there changes.
pub seen_at-check_and_record :
    (t : RouteTable) (instant : ℕ) (id j : EnvelopeId)
    → seen_at (check_and_record t instant id).0 j
      ≡ elim (seen_at t j) [ some ts ↦ some ts | none ↦ if id == j then some instant else none ]
unfolding check_and_record
seen_at-check_and_record t instant id j = ground (
  arith,
  contains_key-get t.seen_messages id,
  get-insert t.seen_messages id j instant,
  ==_iff id j,
)
