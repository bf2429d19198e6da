-- ===== src/Mesh/Peer/Observe.antt =====
-- aegis-mesh/crates/aegis-core/src/mesh/peer.rs: what a lookup gives after `observe`.
use aegis_mesh.Base.{
  ℕ, ◌+◌, ◌≤◌, ◌<◌, ◌≡◌, ◌≢◌, ◌⊎◌, refl, ap, true, false, Option, none, some, arith, length, filter,
  if◌then◌else◌, Bool-cases, Option-cases, inl, inr, ◌==◌, ==_iff, nat_eq, list_eq,
}
use mathlib.Core.Path.{subst}
use aegis_mesh.Base.Map
use aegis_mesh.Base.Map.{Map, IsDistinct, get-insert, get-remove, contains_key-get}
use aegis_mesh.Base.Clock.{seconds}
use aegis_mesh.Base.Text.{Text}
use aegis_mesh.Crypto.IdentityId.{IdentityId}
use aegis_mesh.Mesh.Peer.{
  PublicIdentity, Peer, PeerRegistry, holds_blocked, is_offline, admit, oldest, make_room, entered,
  refresh_entry, record_peer, observe,
}
use aegis_mesh.Mesh.Peer.Evict.{make_room_lem, IsOfflineEntry, IsOldest}

get-refresh_entry :
    (peers : Map IdentityId Peer) (now : ℕ) (identity : PublicIdentity) (rssi : Option ℕ)
    (transport : Text) (j : IdentityId)
    → Map.get (refresh_entry peers now identity rssi transport) j ≡ (
        if identity.id == j
        then some (entered (Map.get peers identity.id) now identity rssi transport)
        else Map.get peers j)
unfolding refresh_entry
get-refresh_entry peers now identity rssi transport j = get-insert peers identity.id j _

-- The peer is one of the offline ones that were seen first.
abbrev pub IsEvictable : Map IdentityId Peer → IdentityId → Peer → Type 0
IsEvictable peers j p =
    IsOfflineEntry peers (j, p) × IsOldest (j, p) (filter (λ f. is_offline f.1.state) peers)

get-make_room :
    (peers room : Map IdentityId Peer) (max_peers : ℕ) (id j : IdentityId)
    → IsDistinct peers
    → make_room peers max_peers id ≡ some room
    → (Map.get room j ≡ Map.get peers j)
      ⊎ ((p : Peer) × IsEvictable peers j p × (Map.get room j ≡ none))
get-make_room peers room max_peers id j d made =
    elim (make_room_lem peers room max_peers id d made) [
      | inl (same, why) ↦ inl (ap (λ m. Map.get m j) same)
      | inr ((k, p), entry, first, removed, absent) ↦ rw removed (
          rw (get-remove peers k j) (elim (Bool-cases (k == j)) [
            | inl here ↦
                let same : k ≡ j = ground (arith, ==_iff k j, here) in
                rw here (inr (p, subst (λ i. IsEvictable peers i p) same (entry, first), refl))
            | inr there ↦ rw there (inl refl)
          ]))
    ]

-- A peer other than the observed one is as it was, unless it is offline, no offline peer was seen
-- earlier, and it made room.
pub get-record_peer_other :
    (peers : Map IdentityId Peer) (max_peers now : ℕ) (identity : PublicIdentity) (rssi : Option ℕ)
    (transport : Text) (j : IdentityId)
    → IsDistinct peers
    → identity.id ≢ j
    → let after = record_peer peers max_peers now identity rssi transport in
      (Map.get after j ≡ Map.get peers j)
      ⊎ ((p : Peer) × IsEvictable peers j p × (Map.get after j ≡ none))
unfolding record_peer
get-record_peer_other peers max_peers now identity rssi transport j d apart =
    elim (Bool-cases (holds_blocked (Map.get peers identity.id))) [
      | inl h ↦ rw h (inl refl)
      | inr h ↦ rw h (elim (Option-cases (make_room peers max_peers identity.id)) [
        | inl none_left ↦ rw none_left (inl refl)
        | inr (room, made) ↦
            let miss : (identity.id == j) ≡ false = ground (arith, ==_iff identity.id j, apart) in
            rw made (
              rw (get-refresh_entry room now identity rssi transport j)
                (rw miss (get-make_room peers room max_peers identity.id j d made)))
      ])
    ]

make_room_self :
    (peers room : Map IdentityId Peer) (max_peers : ℕ) (id : IdentityId)
    → IsDistinct peers
    → make_room peers max_peers id ≡ some room
    → Map.get room id ≡ Map.get peers id
make_room_self peers room max_peers id d made =
    elim (make_room_lem peers room max_peers id d made) [
      | inl (same, why) ↦ ap (λ m. Map.get m id) same
      | inr (e, entry, first, removed, absent) ↦
          rw removed (ground (arith, get-remove peers e.0 id, contains_key-get peers id, absent))
    ]

make_room-none :
    (peers : Map IdentityId Peer) (max_peers : ℕ) (id : IdentityId)
    → make_room peers max_peers id ≡ none
    → (Map.get peers id ≡ none)
      × (max_peers ≤ length peers)
      × (oldest (filter (λ f. is_offline f.1.state) peers) ≡ none)
unfolding make_room
make_room-none peers max_peers id h = ground (arith, contains_key-get peers id)

-- The observed peer, unless it is blocked: with room for it, it is online and was seen now, and
-- if it was known it keeps its identity and whether it is verified. Else nothing changes.
pub get-record_peer_self :
    (peers : Map IdentityId Peer) (max_peers now : ℕ) (identity : PublicIdentity) (rssi : Option ℕ)
    (transport : Text)
    → IsDistinct peers
    → let after = record_peer peers max_peers now identity rssi transport in
      let before = Map.get peers identity.id in
      (Map.get after identity.id ≡ (
        if holds_blocked before then before else some (entered before now identity rssi transport)))
      ⊎ ((after ≡ peers)
          × (before ≡ none)
          × (max_peers ≤ length peers)
          × (oldest (filter (λ f. is_offline f.1.state) peers) ≡ none))
unfolding record_peer
get-record_peer_self peers max_peers now identity rssi transport d =
    elim (Bool-cases (holds_blocked (Map.get peers identity.id))) [
      | inl h ↦ rw h (inl refl)
      | inr h ↦ rw h (elim (Option-cases (make_room peers max_peers identity.id)) [
        | inl none_left ↦
            let full = make_room-none peers max_peers identity.id none_left in
            rw none_left (inr (refl, full.0, full.1, full.2))
        | inr (room, made) ↦
            let kept =
              ap (λ o. some (entered o now identity rssi transport))
                (make_room_self peers room max_peers identity.id d made) in
            let hit : (identity.id == identity.id) ≡ true =
              ground (arith, ==_iff identity.id identity.id) in
            rw made (
              rw (get-refresh_entry room now identity rssi transport identity.id)
                (rw hit (inl kept)))
      ])
    ]

admit_again :
    (times : Map IdentityId ℕ) (instant later : ℕ) (id : IdentityId)
    → (admit times instant id).1 ≡ true
    → later < instant + seconds 5
    → admit (admit times instant id).0 later id ≡ ((admit times instant id).0, false)
unfolding admit
admit_again times instant later id a l =
    ground (arith, get-insert times id id instant, ==_iff id id)

observe_limited :
    (reg : PeerRegistry) (instant now : ℕ) (identity : PublicIdentity) (rssi : Option ℕ)
    (transport : Text)
    → admit reg.observe_times instant identity.id ≡ (reg.observe_times, false)
    → observe reg instant now identity rssi transport ≡ reg
unfolding observe
observe_limited reg instant now identity rssi transport h = rw h refl

observe_times-observe :
    (reg : PeerRegistry) (instant now : ℕ) (identity : PublicIdentity) (rssi : Option ℕ)
    (transport : Text)
    → (observe reg instant now identity rssi transport).observe_times
      ≡ (admit reg.observe_times instant identity.id).0
unfolding observe
observe_times-observe reg instant now identity rssi transport =
    elim (Bool-cases (admit reg.observe_times instant identity.id).1) [
      | inl h ↦ rw h refl
      | inr h ↦ rw h refl
    ]

-- After an observation that passed the rate limit, another of the same peer within five seconds
-- changes nothing at all.
pub observe-observe :
    (reg : PeerRegistry) (instant later now now' : ℕ) (identity seen : PublicIdentity)
    (rssi rssi' : Option ℕ) (transport transport' : Text)
    → (admit reg.observe_times instant identity.id).1 ≡ true
    → seen.id ≡ identity.id
    → later < instant + seconds 5
    → let once = observe reg instant now identity rssi transport in
      observe once later now' seen rssi' transport' ≡ once
observe-observe reg instant later now now' identity seen rssi rssi' transport transport' a same l =
    let once = observe reg instant now identity rssi transport in
    observe_limited once later now' seen rssi' transport' (
      rw (observe_times-observe reg instant now identity rssi transport, same)
        (admit_again reg.observe_times instant later identity.id a l))
