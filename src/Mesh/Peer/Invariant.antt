-- ===== src/Mesh/Peer/Invariant.antt =====
-- aegis-mesh/crates/aegis-core/src/mesh/peer.rs: the well-formed registries, and the runs. An event
-- is one section under a lock, so that the two sections of `observe` may stand with others between.
use aegis_mesh.Base.{
  ℕ, ◌+◌, ◌≤◌, ◌≡◌, sym, Option, some, List, [], ◌∷◌, arith, length, if◌then◌else◌, Bool-cases,
  Option-cases, inl, inr, nat_eq, list_eq,
}
use mathlib.Core.Path.{subst}
use aegis_mesh.Base.Map
use aegis_mesh.Base.Map.{
  Map, IsDistinct, get-map_values, contains_key-get, insert-IsDistinct, remove-IsDistinct,
  modify-IsDistinct, map_values-IsDistinct, length-map_values, length-insert, length-remove-le,
  length-remove-lt, length-modify,
}
use aegis_mesh.Base.Text.{Text}
use aegis_mesh.Crypto.IdentityId.{IdentityId}
use aegis_mesh.Mesh.Peer.{
  PublicIdentity, Peer, PeerRegistry, admit, make_room, refresh_entry, record_peer, mark_verified,
  block, unblock, refresh_states, aged, holds_blocked,
}
use aegis_mesh.Mesh.Peer.Evict.{make_room_lem}

pub data Event : Type 0 where
  check_times : ℕ → IdentityId → Event
  record_one : ℕ → PublicIdentity → Option ℕ → Text → Event
  mark_verified_one block_one unblock_one : IdentityId → Event
  refresh_all : (IdentityId → ℕ) → Event

unfoldable pub step : Event → PeerRegistry → PeerRegistry
step (check_times instant id) reg = record reg {
  observe_times = (admit reg.observe_times instant id).0;
}
step (record_one now identity rssi transport) reg = record reg {
  peers = record_peer reg.peers reg.max_peers now identity rssi transport;
}
step (mark_verified_one id) reg = mark_verified reg id
step (block_one id) reg = block reg id
step (unblock_one id) reg = unblock reg id
step (refresh_all clock) reg = refresh_states reg clock

unfoldable pub run : List Event → PeerRegistry → PeerRegistry
run [] reg = reg
run (e ∷ es) reg = run es (step e reg)

-- No identifier stands twice, and the bound on the peers holds.
pub record IsRegistry (reg : PeerRegistry) : Type 0 where
  pub peers : IsDistinct reg.peers
  pub times : IsDistinct reg.observe_times
  pub bounded : length reg.peers ≤ reg.max_peers

pub length-refresh_entry :
    (peers : Map IdentityId Peer) (now : ℕ) (identity : PublicIdentity) (rssi : Option ℕ)
    (transport : Text)
    → length (refresh_entry peers now identity rssi transport)
      ≡ (if Map.contains_key peers identity.id then length peers else length peers + 1)
unfolding refresh_entry
length-refresh_entry peers now identity rssi transport = length-insert peers identity.id _

refresh_entry-IsDistinct :
    (peers : Map IdentityId Peer) (now : ℕ) (identity : PublicIdentity) (rssi : Option ℕ)
    (transport : Text)
    → IsDistinct peers
    → IsDistinct (refresh_entry peers now identity rssi transport)
unfolding refresh_entry
refresh_entry-IsDistinct peers now identity rssi transport d =
    insert-IsDistinct peers identity.id _ d

-- Once there is room, an entry that is new for the peer keeps to the bound.
make_room_fits :
    (peers room : Map IdentityId Peer) (max_peers : ℕ) (id : IdentityId)
    → IsDistinct peers
    → length peers ≤ max_peers
    → make_room peers max_peers id ≡ some room
    → (if Map.contains_key room id then length room else length room + 1) ≤ max_peers
make_room_fits peers room max_peers id d l h = elim (make_room_lem peers room max_peers id d h) [
  | inl (same, why) ↦ rw same (ground arith)
  | inr (e, entry, first, removed, absent) ↦ rw removed (
      ground (
        arith,
        contains_key-get peers e.0,
        entry.0,
        length-remove-lt peers e.0,
        length-remove-le peers e.0,
      ))
]

make_room-IsDistinct :
    (peers room : Map IdentityId Peer) (max_peers : ℕ) (id : IdentityId)
    → IsDistinct peers
    → make_room peers max_peers id ≡ some room
    → IsDistinct room
make_room-IsDistinct peers room max_peers id d h =
    elim (make_room_lem peers room max_peers id d h) [
      | inl (same, why) ↦ subst IsDistinct (sym same) d
      | inr (e, entry, first, removed, absent) ↦
          subst IsDistinct (sym removed) (remove-IsDistinct peers e.0 d)
    ]

record_peer-bounds :
    (peers : Map IdentityId Peer) (max_peers now : ℕ) (identity : PublicIdentity) (rssi : Option ℕ)
    (transport : Text)
    → IsDistinct peers
    → length peers ≤ max_peers
    → IsDistinct (record_peer peers max_peers now identity rssi transport)
      × (length (record_peer peers max_peers now identity rssi transport) ≤ max_peers)
unfolding record_peer
record_peer-bounds peers max_peers now identity rssi transport d l =
    elim (Bool-cases (holds_blocked (Map.get peers identity.id))) [
      | inl h ↦ rw h (d, l)
      | inr h ↦ rw h (elim (Option-cases (make_room peers max_peers identity.id)) [
        | inl none_left ↦ rw none_left (d, l)
        | inr (room, made) ↦ rw made (
          refresh_entry-IsDistinct room now identity rssi transport
              (make_room-IsDistinct peers room max_peers identity.id d made),
          rw (length-refresh_entry room now identity rssi transport)
              (make_room_fits peers room max_peers identity.id d l made),
        )
      ])
    ]

admit-IsDistinct :
    (times : Map IdentityId ℕ) (instant : ℕ) (id : IdentityId)
    → IsDistinct times
    → IsDistinct (admit times instant id).0
unfolding admit
admit-IsDistinct times instant id d = ground (arith, insert-IsDistinct times id instant d)

modify-IsRegistry :
    (reg : PeerRegistry) (id : IdentityId) (f : Peer → Peer)
    → IsRegistry reg
    → IsRegistry (record reg { peers = Map.modify reg.peers id f })
modify-IsRegistry reg id f i = record {
  peers = modify-IsDistinct reg.peers id f i.peers;
  times = i.times;
  bounded = omega (arith, length-modify reg.peers id f, i.bounded);
}

pub step-IsRegistry : (e : Event) (reg : PeerRegistry) → IsRegistry reg → IsRegistry (step e reg)
unfolding step mark_verified block unblock refresh_states
step-IsRegistry (check_times instant id) reg i = record {
  peers = i.peers;
  times = admit-IsDistinct reg.observe_times instant id i.times;
  bounded = i.bounded;
}
step-IsRegistry (record_one now identity rssi transport) reg i =
    let bounds =
      record_peer-bounds reg.peers reg.max_peers now identity rssi transport i.peers i.bounded in
    record { peers = bounds.0; times = i.times; bounded = bounds.1 }
step-IsRegistry (mark_verified_one id) reg i = modify-IsRegistry reg id _ i
step-IsRegistry (block_one id) reg i = modify-IsRegistry reg id _ i
step-IsRegistry (unblock_one id) reg i = modify-IsRegistry reg id _ i
step-IsRegistry (refresh_all clock) reg i = record {
  peers = map_values-IsDistinct (λ k p. aged reg (clock k) p) reg.peers i.peers;
  times = i.times;
  bounded = omega (arith, length-map_values (λ k p. aged reg (clock k) p) reg.peers, i.bounded);
}

-- After any events, in any order, no identifier stands twice in the registry and it holds at most
-- `max_peers` peers.
pub run-IsRegistry :
    (es : List Event) (reg : PeerRegistry) → IsRegistry reg → IsRegistry (run es reg)
unfolding run
run-IsRegistry [] reg i = i
run-IsRegistry (e ∷ es) reg i = run-IsRegistry es (step e reg) (step-IsRegistry e reg i)
