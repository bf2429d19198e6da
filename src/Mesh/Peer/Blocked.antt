-- ===== src/Mesh/Peer/Blocked.antt =====
-- aegis-mesh/crates/aegis-core/src/mesh/peer.rs: a blocked peer under the other operations.
use aegis_mesh.Base.{
  ℕ, ◌≡◌, ◌≢◌, sym, true, Option, List, [], ◌∷◌, arith, All, Bool-cases, inl, inr, ◌==◌, ==_iff,
  nat_eq, list_eq,
}
use mathlib.Core.Path.{subst}
use aegis_mesh.Base.Map
use aegis_mesh.Base.Text.{Text}
use aegis_mesh.Base.Map.{Map, IsDistinct, get-modify, get-map_values}
use aegis_mesh.Crypto.IdentityId.{IdentityId}
use aegis_mesh.Mesh.Peer.{
  PublicIdentity, PeerRegistry, blocked, holds_blocked, unblocked, mark_verified, block, unblock,
  refresh_states, aged,
}
use aegis_mesh.Mesh.Peer.Invariant.{
  Event, check_times, record_one, mark_verified_one, block_one, unblock_one, refresh_all, step, run,
  IsRegistry, step-IsRegistry,
}
use aegis_mesh.Mesh.Peer.Observe.{get-record_peer_other, get-record_peer_self}

-- The peer is in the registry, and blocked.
abbrev pub IsBlocked : PeerRegistry → IdentityId → Type 0
IsBlocked reg id = holds_blocked (Map.get reg.peers id) ≡ true

-- The event does not unblock this peer.
abbrev pub Spares : IdentityId → Event → Type 0
Spares id (unblock_one j) = j ≢ id
Spares id _ = Unit

observed-IsBlocked :
    (reg : PeerRegistry) (now : ℕ) (identity : PublicIdentity) (rssi : Option ℕ) (transport : Text)
    → IsDistinct reg.peers
    → IsBlocked reg identity.id
    → IsBlocked (step (record_one now identity rssi transport) reg) identity.id
unfolding step
observed-IsBlocked reg now identity rssi transport d b =
    elim (get-record_peer_self reg.peers reg.max_peers now identity rssi transport d) [
      | inl same ↦ rw (same, b) b
      | inr (same, absent, full, none_offline) ↦ rw same b
    ]

step-IsBlocked :
    (e : Event) (reg : PeerRegistry) (id : IdentityId)
    → IsRegistry reg
    → Spares id e
    → IsBlocked reg id
    → IsBlocked (step e reg) id
unfolding step mark_verified block unblock refresh_states aged
step-IsBlocked (check_times instant j) reg id i s b = b
step-IsBlocked (record_one now identity rssi transport) reg id i s b =
    elim (Bool-cases (identity.id == id)) [
      | inl hit ↦
          let same : identity.id ≡ id = ground (arith, ==_iff identity.id id) in
          subst (λ j. IsBlocked (step (record_one now identity rssi transport) reg) j) same
            (observed-IsBlocked reg now identity rssi transport i.peers
              (subst (IsBlocked reg) (sym same) b))
      | inr miss ↦
          let apart : identity.id ≢ id = ground (arith, ==_iff identity.id id) in
          elim (get-record_peer_other reg.peers reg.max_peers now identity rssi transport id i.peers
            apart) [ inl same ↦ rw same b | inr (p, evictable, gone) ↦ absurd (ground arith) ]
    ]
step-IsBlocked (mark_verified_one j) reg id i s b =
    ground (arith, get-modify reg.peers j id (λ p. record p { verified = true }))
step-IsBlocked (block_one j) reg id i s b =
    ground (arith, get-modify reg.peers j id (λ p. record p { state = blocked }))
step-IsBlocked (unblock_one j) reg id i s b =
    ground (arith, ==_iff j id, get-modify reg.peers j id unblocked)
step-IsBlocked (refresh_all clock) reg id i s b =
    ground (arith, get-map_values (λ k p. aged reg (clock k) p) reg.peers id)

-- A peer that is blocked stays in the registry and stays blocked under any events, observations
-- of it and of others among them, until one unblocks it.
pub run-IsBlocked :
    (es : List Event) (reg : PeerRegistry) (id : IdentityId)
    → IsRegistry reg
    → All (Spares id) es
    → IsBlocked reg id
    → IsBlocked (run es reg) id
unfolding run
run-IsBlocked [] reg id i s b = b
run-IsBlocked (e ∷ es) reg id i s b =
    run-IsBlocked es (step e reg) id (step-IsRegistry e reg i) s.1 (step-IsBlocked e reg id i s.0 b)
