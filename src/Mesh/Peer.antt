-- ===== src/Mesh/Peer.antt =====
-- aegis-mesh/crates/aegis-core/src/mesh/peer.rs: the registry of the peers, with the rate limit on
-- observations and the states of a peer. `instant` is the monotonic clock and `now` the system
-- clock, in nanoseconds. A method is one step: `observe` takes its two locks one after the other
-- and is the composition of their sections.
pub mod Blocked
pub mod Evict
pub mod Invariant
pub mod Observe
pub mod Counts
pub mod States
use aegis_mesh.Base.{
  ℕ, ◌+◌, ◌-◌, Bool, true, false, not, ◌&&◌, Option, none, some, List, [], ◌∷◌, map, ltb, leb,
  filter, length, ◌==◌, nat_eq, list_eq, if◌then◌else◌,
}
use aegis_mesh.Base.Map
use aegis_mesh.Base.Map.{Map}
use aegis_mesh.Base.Clock.{seconds}
use aegis_mesh.Base.Text.{Text, Bytes}
use aegis_mesh.Crypto.IdentityId.{IdentityId}
use aegis_mesh.Messaging.Envelope.{now_ns}

-- The identity that a peer shows of itself.
pub record PublicIdentity : Type 0 where
  pub id : IdentityId
  pub display_name : Text
  pub verifying_key : Bytes

pub data PeerState : Type 0 where
  online stale offline blocked : PeerState

-- `==` on the states.
abbrev pub is_online : PeerState → Bool
is_online online = true
is_online _ = false

abbrev pub is_offline : PeerState → Bool
is_offline offline = true
is_offline _ = false

abbrev pub is_blocked : PeerState → Bool
is_blocked blocked = true
is_blocked _ = false

pub record Peer : Type 0 where
  pub identity : PublicIdentity
  pub last_seen_ns : ℕ
  pub state : PeerState
  -- The byte of the `i8`, which is only stored.
  pub rssi : Option ℕ
  pub last_transport : Option Text
  pub verified : Bool

-- `saturating_sub`
unfoldable pub age : ℕ → Peer → ℕ
age now p = now_ns now - p.last_seen_ns

pub record PeerRegistry : Type 0 where
  pub peers : Map IdentityId Peer
  pub observe_times : Map IdentityId ℕ
  pub stale_threshold : ℕ
  pub offline_threshold : ℕ
  pub max_peers : ℕ

unfoldable pub new : PeerRegistry
new = record {
  peers = [];
  observe_times = [];
  stale_threshold = seconds 300;
  offline_threshold = seconds 1800;
  max_peers = 10_000;
}

-- The first section of `observe`: whether the call goes on.
unfoldable pub admit : Map IdentityId ℕ → ℕ → IdentityId → Map IdentityId ℕ × Bool
admit times instant id = elim (Map.get times id) [
  | none ↦ (Map.insert times id instant, true)
  | some last ↦
      if ltb (instant - last) (seconds 5)
      then (times, false)
      else (Map.insert times id instant, true)
]

-- `min_by_key` takes the first of the entries that are least.
unfoldable pub oldest : List (IdentityId × Peer) → Option (IdentityId × Peer)
oldest [] = none
oldest (e ∷ es) = elim (oldest es) [
  | none ↦ some e
  | some f ↦ if leb e.1.last_seen_ns f.1.last_seen_ns then some e else some f
]

-- `None` if the peer cannot be added.
unfoldable pub make_room : Map IdentityId Peer → ℕ → IdentityId → Option (Map IdentityId Peer)
make_room peers max_peers id =
    if leb max_peers (length peers) && not (Map.contains_key peers id)
    then elim (oldest (filter (λ e. is_offline e.1.state) peers)) [
      | none ↦ none
      | some (k, p) ↦ some (Map.remove peers k)
    ]
    else some peers

-- `or_insert_with(...)` on the entry of the peer, and the four assignments.
unfoldable pub entered : Option Peer → ℕ → PublicIdentity → Option ℕ → Text → Peer
entered none now identity rssi transport = record {
  identity = identity;
  last_seen_ns = now_ns now;
  state = online;
  rssi = rssi;
  last_transport = some transport;
  verified = false;
}
entered (some entry) now identity rssi transport = record entry {
  last_seen_ns = now_ns now;
  state = online;
  rssi = rssi;
  last_transport = some transport;
}

unfoldable pub refresh_entry :
    Map IdentityId Peer → ℕ → PublicIdentity → Option ℕ → Text → Map IdentityId Peer
refresh_entry peers now identity rssi transport =
    let entry = Map.get peers identity.id in
    Map.insert peers identity.id (entered entry now identity rssi transport)

abbrev pub holds_blocked : Option Peer → Bool
holds_blocked none = false
holds_blocked (some existing) = is_blocked existing.state

-- The second section of `observe`.
unfoldable pub record_peer :
    Map IdentityId Peer → ℕ → ℕ → PublicIdentity → Option ℕ → Text → Map IdentityId Peer
record_peer peers max_peers now identity rssi transport =
    if holds_blocked (Map.get peers identity.id)
    then peers
    else elim (make_room peers max_peers identity.id) [
      | none ↦ peers
      | some room ↦ refresh_entry room now identity rssi transport
    ]

-- The method always returns `Ok(())`.
unfoldable pub observe : PeerRegistry → ℕ → ℕ → PublicIdentity → Option ℕ → Text → PeerRegistry
observe reg instant now identity rssi transport =
    let (times, admitted) = admit reg.observe_times instant identity.id in
    if admitted
    then record reg {
      observe_times = times;
      peers = record_peer reg.peers reg.max_peers now identity rssi transport;
    }
    else record reg { observe_times = times }

unfoldable pub mark_verified : PeerRegistry → IdentityId → PeerRegistry
mark_verified reg id = record reg {
  peers = Map.modify reg.peers id (λ p. record p { verified = true });
}

unfoldable pub block : PeerRegistry → IdentityId → PeerRegistry
block reg id = record reg { peers = Map.modify reg.peers id (λ p. record p { state = blocked }) }

-- What `unblock` does to the peer.
abbrev pub unblocked : Peer → Peer
unblocked p = if is_blocked p.state then record p { state = offline } else p

unfoldable pub unblock : PeerRegistry → IdentityId → PeerRegistry
unblock reg id = record reg { peers = Map.modify reg.peers id unblocked }

unfoldable pub get : PeerRegistry → IdentityId → Option Peer
get reg id = Map.get reg.peers id

-- `sort_by` is stable: a peer goes before the first that was seen strictly earlier.
unfoldable pub insert_by_seen : Peer → List Peer → List Peer
insert_by_seen p [] = p ∷ []
insert_by_seen p (q ∷ qs) =
    if leb q.last_seen_ns p.last_seen_ns then p ∷ q ∷ qs else q ∷ insert_by_seen p qs

unfoldable pub sort_by_seen : List Peer → List Peer
sort_by_seen [] = []
sort_by_seen (p ∷ ps) = insert_by_seen p (sort_by_seen ps)

unfoldable pub list : PeerRegistry → List Peer
list reg = sort_by_seen (map (λ e. e.1) reg.peers)

unfoldable pub list_online : PeerRegistry → List Peer
list_online reg = filter (λ p. is_online p.state) (list reg)

unfoldable pub neighbor_ids : PeerRegistry → List IdentityId
neighbor_ids reg = map (λ e. e.0) (filter (λ e. is_online e.1.state) reg.peers)

-- The body of the loop of `refresh_states`.
unfoldable pub aged : PeerRegistry → ℕ → Peer → Peer
aged reg now p = if is_blocked p.state then p else record p {
  state =
      if ltb reg.offline_threshold (age now p)
      then offline
      else if ltb reg.stale_threshold (age now p)
      then stale
      else online;
}

-- `clock` gives the reading of the system clock at each peer.
unfoldable pub refresh_states : PeerRegistry → (IdentityId → ℕ) → PeerRegistry
refresh_states reg clock = record reg {
  peers = map (λ e. (e.0, aged reg (clock e.0) e.1)) reg.peers;
}

-- Online, stale, offline and blocked.
abbrev pub count_one : PeerState → ℕ × ℕ × ℕ × ℕ → ℕ × ℕ × ℕ × ℕ
count_one online (o, s, f, b) = (o + 1, s, f, b)
count_one stale (o, s, f, b) = (o, s + 1, f, b)
count_one offline (o, s, f, b) = (o, s, f + 1, b)
count_one blocked (o, s, f, b) = (o, s, f, b + 1)

unfoldable pub count_loop : List (IdentityId × Peer) → ℕ × ℕ × ℕ × ℕ → ℕ × ℕ × ℕ × ℕ
count_loop [] acc = acc
count_loop (e ∷ es) acc = count_loop es (count_one e.1.state acc)

unfoldable pub counts : PeerRegistry → ℕ × ℕ × ℕ × ℕ
counts reg = count_loop reg.peers (0, 0, 0, 0)
