-- ===== src/Mesh/Peer/States.antt =====
-- aegis-mesh/crates/aegis-core/src/mesh/peer.rs: the states that `refresh_states` gives.
use aegis_mesh.Base.{
  ℕ, ◌≤◌, ◌<◌, ◌≡◌, ◌≢◌, ◌⊎◌, ◌↔◌, refl, ◌∙◌, true, false, some, arith, if◌then◌else◌, Bool-cases,
  inl, inr, ltb, nat_eq, list_eq, ap,
}
use mathlib.Core.Option
use aegis_mesh.Base.Map.{get-map_values}
use aegis_mesh.Crypto.IdentityId.{IdentityId}
use aegis_mesh.Mesh.Peer.{
  Peer, PeerRegistry, PeerState, online, stale, offline, blocked, is_blocked, age, aged, get,
  refresh_states,
}

abbrev pub FollowsAge : PeerRegistry → ℕ → Peer → Peer → Type 0
FollowsAge reg now p q =
    (p.state ≢ blocked)
    × ((q.state ≡ offline) ↔ (reg.offline_threshold < age now p))
    × ((q.state ≡ online) ↔ (age now p ≤ reg.stale_threshold))
    × (q.last_seen_ns ≡ p.last_seen_ns)

state_by_age :
    (old fresh limit : ℕ)
    → fresh ≤ limit
    → let s = if ltb limit old then offline else if ltb fresh old then stale else online in
      ((s ≡ offline) ↔ (limit < old)) × ((s ≡ online) ↔ (old ≤ fresh))
state_by_age old fresh limit l =
    (((λ h. ground arith), (λ h. ground arith)), ((λ h. ground arith), (λ h. ground arith)))

is_blocked_iff : (t : PeerState) → is_blocked t ≡ true → t ≡ blocked
is_blocked_iff online h = cc
is_blocked_iff stale h = cc
is_blocked_iff offline h = cc
is_blocked_iff blocked h = refl

not_blocked : (t : PeerState) → is_blocked t ≡ false → t ≢ blocked
not_blocked t h e = cc

aged_lem :
    (reg : PeerRegistry) (now : ℕ) (p : Peer)
    → reg.stale_threshold ≤ reg.offline_threshold
    → ((p.state ≡ blocked) × (aged reg now p ≡ p)) ⊎ FollowsAge reg now p (aged reg now p)
unfolding aged
aged_lem reg now p l = elim (Bool-cases (is_blocked p.state)) [
  | inl hit ↦ inl (is_blocked_iff p.state hit, rw hit refl)
  | inr miss ↦
      let by_age = state_by_age (age now p) reg.stale_threshold reg.offline_threshold l in
      inr (not_blocked p.state miss, rw miss by_age.0, rw miss by_age.1, rw miss refl)
]

-- Where the thresholds are in order, `refresh_states` finds every peer of the registry again. A
-- blocked one is as it was. Another is offline if and only if it was last seen longer ago than the
-- offline threshold, and online if and only if it was seen within the stale threshold.
pub refresh_states_lem :
    (reg : PeerRegistry) (clock : IdentityId → ℕ) (id : IdentityId) (p : Peer)
    → reg.stale_threshold ≤ reg.offline_threshold
    → get reg id ≡ some p
    → (q : Peer) × (get (refresh_states reg clock) id ≡ some q)
      × (((p.state ≡ blocked) × (q ≡ p)) ⊎ FollowsAge reg (clock id) p q)
unfolding get refresh_states
refresh_states_lem reg clock id p l h = (
  aged reg (clock id) p,
  get-map_values (λ k q. aged reg (clock k) q) reg.peers id
      ∙ ap (Option.map (aged reg (clock id))) h,
  aged_lem reg (clock id) p l,
)
