-- ===== src/Mesh/Peer/Evict.antt =====
-- aegis-mesh/crates/aegis-core/src/mesh/peer.rs: the peer that `observe` evicts from a full registry.
use aegis_mesh.Base.{
  ℕ, ◌≤◌, ◌<◌, ◌≡◌, ◌≢◌, ◌⊎◌, refl, true, false, not, ◌&&◌, none, some, List, [], ◌∷◌, arith,
  length, filter, leb, leb→le, All, All-map, Bool-cases, Option-cases, inl, inr, nat_eq, list_eq,
}
use mathlib.Core.Path.{subst}
use aegis_mesh.Base.Map
use aegis_mesh.Base.Map.{
  Map, IsDistinct, get-insert, get-remove, get-modify, get-entries, get-map_values,
  contains_key-get, insert-IsDistinct, remove-IsDistinct, modify-IsDistinct, length-insert,
  length-remove-le, length-remove-lt, length-modify,
}
use aegis_mesh.Crypto.IdentityId.{IdentityId}
use aegis_mesh.Mesh.Peer.{
  PeerState, online, stale, offline, blocked, is_offline, Peer, oldest, make_room,
}

-- No entry of the list was seen before this one.
abbrev pub IsOldest : IdentityId × Peer → List (IdentityId × Peer) → Type 0
IsOldest e es = All (λ f. e.1.last_seen_ns ≤ f.1.last_seen_ns) es

oldest-cons_some : (x : IdentityId × Peer) (es : List (IdentityId × Peer)) → oldest (x ∷ es) ≢ none
unfolding oldest
oldest-cons_some x es = elim (Option-cases (oldest es)) [
  | inl h ↦ rw h (λ h'. cc)
  | inr (f, h) ↦ rw h (ground arith)
]

-- The entry that `oldest` returns has what all the entries have, and none was seen earlier.
pub oldest_lem :
    (P : IdentityId × Peer → Type 0) (es : List (IdentityId × Peer)) (e : IdentityId × Peer)
    → All P es
    → oldest es ≡ some e
    → P e × IsOldest e es
unfolding oldest
oldest_lem P [] e a h = cc
oldest_lem P (x ∷ []) e a h =
    let same : x ≡ e = cc in subst (λ f. P f × IsOldest f (x ∷ [])) same (a.0, (omega arith, tt))
oldest_lem P (x ∷ y ∷ es) e a h = elim (Option-cases (oldest (y ∷ es))) [
  | inl h' ↦ absurd (oldest-cons_some y es h')
  | inr (f, h') ↦
      let rest = oldest_lem P (y ∷ es) f a.1 h' in
      elim (Bool-cases (leb x.1.last_seen_ns f.1.last_seen_ns)) [
        | inl first ↦
            let same : x ≡ e = ground arith in
            let later = leb→le x.1.last_seen_ns f.1.last_seen_ns first in
            subst (λ g. P g × IsOldest g (x ∷ y ∷ es)) same
              (
                a.0,
                (
                  omega arith,
                  All-map (λ g. f.1.last_seen_ns ≤ g.1.last_seen_ns) _ (y ∷ es)
                      (λ g l. omega (arith, later, l)) rest.1,
                ),
              )
        | inr second ↦
            let same : f ≡ e = ground arith in
            subst (λ g. P g × IsOldest g (x ∷ y ∷ es)) same (rest.0, (ground arith, rest.1))
      ]
]

abbrev pub IsOfflineEntry : Map IdentityId Peer → IdentityId × Peer → Type 0
IsOfflineEntry peers (k, p) = (Map.get peers k ≡ some p) × (p.state ≡ offline)

is_offline_iff : (s : PeerState) → is_offline s ≡ true → s ≡ offline
is_offline_iff online h = cc
is_offline_iff stale h = cc
is_offline_iff offline h = refl
is_offline_iff blocked h = cc

offline_entries :
    (peers : Map IdentityId Peer) (es : List (IdentityId × Peer))
    → All (λ e. Map.get peers e.0 ≡ some e.1) es
    → All (IsOfflineEntry peers) (filter (λ e. is_offline e.1.state) es)
offline_entries peers [] a = tt
offline_entries peers (e ∷ es) a =
    ground (arith, is_offline_iff e.1.state, offline_entries peers es a.1)

-- A peer that `make_room` drops is offline, and no offline peer was seen earlier. The others stay.
pub make_room_lem :
    (peers room : Map IdentityId Peer) (max_peers : ℕ) (id : IdentityId)
    → IsDistinct peers
    → make_room peers max_peers id ≡ some room
    → ((room ≡ peers) × ((length peers < max_peers) ⊎ (Map.contains_key peers id ≡ true)))
      ⊎ ((e : IdentityId × Peer) × IsOfflineEntry peers e
          × IsOldest e (filter (λ f. is_offline f.1.state) peers)
          × (room ≡ Map.remove peers e.0)
          × (Map.contains_key peers id ≡ false))
unfolding make_room
make_room_lem peers room max_peers id d h =
    let offlines = filter (λ (e : IdentityId × Peer). is_offline e.1.state) peers in
    elim (Bool-cases (leb max_peers (length peers) && not (Map.contains_key peers id))) [
      | inr room_left ↦ inl (ground arith)
      | inl full ↦ elim (Option-cases (oldest offlines)) [
        | inl h' ↦ absurd (ground arith)
        | inr (e, h') ↦
            let spec =
              oldest_lem (IsOfflineEntry peers) offlines e
                (offline_entries peers peers (get-entries peers d)) h' in
            inr (e, spec.0, spec.1, ground arith, ground arith)
      ]
    ]
