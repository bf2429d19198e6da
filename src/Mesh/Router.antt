-- ===== src/Mesh/Router.antt =====
-- aegis-mesh/crates/aegis-core/src/mesh/router.rs: the route table, the duplicate filter, and the
-- decisions of the router. Each method takes its lock once and is one step here. `Instant`s and
-- durations are nanoseconds; the clocks are arguments.
pub mod Routes
pub mod Tables
pub mod Inbound
pub mod Replay
pub mod Announce
pub mod Forward
use Prim.Native.Nat.{min}
use aegis_mesh.Base.{
  ℕ, ◌+◌, ◌-◌, ◌*◌, ◌%◌, ◌^◌, Bool, true, false, not, ◌&&◌, Option, none, some, List, [], ◌∷◌, ◌++◌,
  ltb, leb, filter, ◌==◌, nat_eq, list_eq, if◌then◌else◌,
}
use aegis_mesh.Base.Clock.{seconds}
use aegis_mesh.Base.Map
use aegis_mesh.Base.Map.{Map}
use aegis_mesh.Base.Text.{Bytes, be_bytes}
use aegis_mesh.Crypto.IdentityId.{IdentityId}
use aegis_mesh.Crypto.Primitives.{Ed25519, Hash}
use aegis_mesh.Error.{Result, ok, err, ◌>>=◌, ◌>>◌, ensure, signature}
use aegis_mesh.Messaging.Envelope.{Envelope, is_fresh, u64_mod, now_ns}
use aegis_mesh.Messaging.Envelope.Id.{EnvelopeId}
use aegis_mesh.Messaging.Envelope.Kind.{
  EnvelopeType, channel, broadcast, peer_discovery, route_announce,
}

abbrev pub max_seq_jump : ℕ
max_seq_jump = 1024

-- `u64::MAX`
abbrev pub u64_max : ℕ
u64_max = 2 ^ 64 - 1

pub record RouteEntry : Type 0 where
  pub next_hop : IdentityId
  pub cost : ℕ
  pub seq : ℕ
  pub updated_ns : ℕ

pub record RouteTable : Type 0 where
  pub routes : Map IdentityId RouteEntry
  pub seen_messages : Map EnvelopeId ℕ
  pub seen_ttl : ℕ

unfoldable pub new_table : RouteTable
new_table = record { routes = []; seen_messages = []; seen_ttl = seconds 300 }

-- The match in `update`, with the early return. The sum is one of `u64`, which wraps around.
unfoldable pub should_update : Option RouteEntry → RouteEntry → Bool
should_update none entry = true
should_update (some existing) entry =
    if ltb ((existing.seq + max_seq_jump) % u64_mod) entry.seq && not (entry.seq == u64_max)
    then false
    else if ltb existing.seq entry.seq
    then true
    else entry.seq == existing.seq && ltb entry.cost existing.cost

unfoldable pub update : RouteTable → IdentityId → RouteEntry → RouteTable × Bool
update t dest entry =
    if should_update (Map.get t.routes dest) entry
    then (record t { routes = Map.insert t.routes dest entry }, true)
    else (t, false)

unfoldable pub next_hop : RouteTable → IdentityId → Option IdentityId
next_hop t dest = elim (Map.get t.routes dest) [ none ↦ none | some e ↦ some e.next_hop ]

unfoldable pub get : RouteTable → IdentityId → Option RouteEntry
get t dest = Map.get t.routes dest

unfoldable pub remove : RouteTable → IdentityId → RouteTable
remove t dest = record t { routes = Map.remove t.routes dest }

unfoldable pub remove_routes_via : RouteTable → IdentityId → RouteTable
remove_routes_via t via = record t { routes = Map.retain (λ _ e. not (e.next_hop == via)) t.routes }

unfoldable pub snapshot : RouteTable → List (IdentityId × RouteEntry)
snapshot t = t.routes

unfoldable pub check_and_record : RouteTable → ℕ → EnvelopeId → RouteTable × Bool
check_and_record t instant id =
    if Map.contains_key t.seen_messages id
    then (t, false)
    else (record t { seen_messages = Map.insert t.seen_messages id instant }, true)

-- `duration_since` is 0 for a later instant.
unfoldable pub gc_seen : RouteTable → ℕ → RouteTable
gc_seen t now = record t {
  seen_messages = Map.retain (λ _ ts. ltb (now - ts) t.seen_ttl) t.seen_messages;
}

pub data RouteDecision : Type 0 where
  deliver deliver_and_relay relay drop : RouteDecision

pub record Router : Type 0 where
  pub our_id : IdentityId
  pub table : RouteTable
  pub max_hops : ℕ

unfoldable pub new : IdentityId → ℕ → Router
new our_id max_hops = record { our_id = our_id; table = new_table; max_hops = max_hops }

abbrev pub max_age_ns : ℕ
max_age_ns = 10 * 60 * 1_000_000_000

abbrev pub max_skew_ns : ℕ
max_skew_ns = 60 * 1_000_000_000

unfoldable pub for_us : Router → Envelope → Bool
for_us router env = elim env.recipient [ none ↦ true | some r ↦ r == router.our_id ]

-- The kinds that are delivered and passed on.
unfoldable pub should_relay : EnvelopeType → Bool
should_relay channel = true
should_relay broadcast = true
should_relay peer_discovery = true
should_relay route_announce = true
should_relay _ = false

-- The decision on an envelope that passed the guards and is no duplicate.
unfoldable pub decide : Router → Envelope → RouteDecision
decide router env =
    if for_us router env
    then (if should_relay env.kind && ltb 0 env.ttl then deliver_and_relay else deliver)
    else (if ltb 0 env.ttl then relay else drop)

-- `now` is the system clock and `instant` the monotonic one.
unfoldable pub route_inbound : Router → ℕ → ℕ → Envelope → Router × Result RouteDecision
route_inbound router now instant env =
    if ltb router.max_hops env.hops
    then (router, ok drop)
    else if env.ttl == 0 && ltb 0 env.hops
    then (router, ok drop)
    else if not (is_fresh now env max_age_ns max_skew_ns)
    then (router, ok drop)
    else (let (table, first) = check_and_record router.table instant env.id in
        if not first
        then (record router { table = table }, ok drop)
        else (record router { table = table }, ok (decide router env)))

-- The bytes that the origin signs: its identifier, the hop count and the sequence number.
unfoldable pub announce_bytes : IdentityId → ℕ → ℕ → Bytes
announce_bytes origin hop_count seq = origin ++ (be_bytes 1 hop_count ++ be_bytes 8 seq)

-- The checks of an announcement after its signature is on the table, in their order.
unfoldable pub check_announce :
    Ed25519 → Hash → IdentityId → Bytes → ℕ → ℕ → Bytes → Result (Unit {0})
check_announce ed hash origin key hop_count seq sig = do
  ensure (ed.is_verifying_key key) signature
  ensure (ed.verify key (announce_bytes origin hop_count seq) sig) signature
  ensure (hash.hex_encode (hash.sha256 key) == origin) signature

abbrev pub announced : ℕ → ℕ → ℕ → IdentityId → RouteEntry
announced now hop_count seq via = record {
  next_hop = via;
  cost = min (hop_count + 1) 255;
  seq = seq;
  updated_ns = now_ns now;
}

unfoldable pub process_route_announce :
    Ed25519
    → Hash
    → Router
    → ℕ
    → IdentityId
    → Bytes
    → ℕ
    → ℕ
    → IdentityId
    → Bytes
    → Router × Result Bool
process_route_announce ed hash router now origin key hop_count seq via sig =
    if origin == router.our_id
    then (router, ok false)
    else if leb 255 hop_count
    then (router, ok false)
    else elim (check_announce ed hash origin key hop_count seq sig) [
      | err e ↦ (router, err e)
      | ok _ ↦
          let (table, changed) = update router.table origin (announced now hop_count seq via) in
          (record router { table = table }, ok changed)
    ]

-- Every neighbour but the sender.
unfoldable pub flood : Envelope → List IdentityId → List IdentityId
flood env neighbors = filter (λ n. not (n == env.sender)) neighbors

unfoldable pub forward_targets : Router → Envelope → List IdentityId → List IdentityId
forward_targets router env neighbors = elim env.recipient [
  | none ↦ flood env neighbors
  | some r ↦ elim (next_hop router.table r) [
    | none ↦ flood env neighbors
    | some next ↦ if not (next == env.sender) then next ∷ [] else flood env neighbors
  ]
]
