-- ===== src/Cli/Serve/Passage.antt =====
-- aegis-mesh/crates/aegis-cli/src/commands/serve.rs: a direct text on its way over some nodes to the
-- node of its recipient.
use aegis_mesh.Base.{
  ℕ, ◌+◌, ◌≤◌, ◌<◌, ◌≡◌, ◌≢◌, refl, sym, ap, ◌∙◌, inl, inr, arith, true, none, some, List, [], ◌∷◌,
  All, take, length, Bool-cases, ◌==◌, ==_iff, nat_eq, list_eq,
}
use aegis_mesh.Base.Text.{Text, all_hexdigits}
use aegis_mesh.Crypto.IdentityId.{IdentityId}
use aegis_mesh.Error.{ok}
use aegis_mesh.Mesh.Router.{
  Router, relay, decide, for_us, should_relay, route_inbound, max_skew_ns, max_age_ns,
}
use aegis_mesh.Mesh.Router.Inbound.{IsAdmissible, route_inbound_steps}
use aegis_mesh.Mesh.Router.Tables.{seen_at}
use aegis_mesh.Messaging.Envelope.{Envelope, advance_ttl, u64_mod}
use aegis_mesh.Messaging.Envelope.Kind.{direct}
use aegis_mesh.Messaging.Envelope.Body.{text}
use aegis_mesh.Messaging.Envelope.Relay.{SameMessage, SameMessage-trans, advance_ttl-SameMessage}
use aegis_mesh.Cli.Serve.{Node, printed, send_all, relay_env, act, handle_inbound}
use aegis_mesh.Cli.Serve.Arrive.{foreign_sender, handle_inbound-prints}

-- A node that gets an envelope, with its two clocks.
pub record Hop : Type 0 where
  pub node : Node
  pub now : ℕ
  pub instant : ℕ

-- A node that can pass a message on: neither its sender nor its recipient, with the limit on hops of
-- `aegis serve` and a transport, by whose clock the message is fresh, and which did not have it yet.
pub record IsRelay (m : Envelope) (h : Hop) : Type 0 where
  pub foreign : m.sender ≢ h.node.our_id
  pub elsewhere : m.recipient ≢ some h.node.router.our_id
  pub unseen : seen_at h.node.router.table m.id ≡ none
  pub not_future : m.timestamp_ns ≤ h.now + max_skew_ns
  pub not_old : h.now ≤ m.timestamp_ns + max_age_ns
  pub far : h.now + max_skew_ns + max_age_ns < u64_mod
  pub limit : h.node.router.max_hops ≡ 10
  pub wired : 0 < h.node.transports

-- Each node of the way sends on, over its transports, what the next one gets.
pub Carries : List Hop → Envelope → Envelope → Type 0
Carries [] a b = a ≡ b
Carries (h ∷ hs) a b =
    (after : Node) × (next : Envelope) × (handle_inbound h.node h.now h.instant a
      ≡ some (after, send_all h.node.transports next))
    × (0 < h.node.transports)
    × Carries hs next b

decide-relay :
    (router : Router) (env : Envelope) (to : IdentityId)
    → env.recipient ≡ some to
    → to ≢ router.our_id
    → 0 < env.ttl
    → decide router env ≡ relay
unfolding decide for_us should_relay
decide-relay router env to addressee other alive = elim (Bool-cases (to == router.our_id)) [
  | inl ours ↦ absurd (other ((==_iff to router.our_id).0 ours))
  | inr b ↦ ground (arith, addressee, b)
]

max_hops-route_inbound :
    (router : Router) (now instant : ℕ) (env : Envelope)
    → (route_inbound router now instant env).0.max_hops ≡ router.max_hops
unfolding route_inbound
max_hops-route_inbound router now instant env = ground arith

act-relay :
    (node : Node) (env : Envelope)
    → (advance_ttl env node.router.max_hops).1 ≡ true
    → act node env (ok relay)
      ≡ some (send_all node.transports (advance_ttl env node.router.max_hops).0)
unfolding act relay_env
act-relay node env passes = rw passes refl

advance_ttl-passes : (env : Envelope) → 0 < env.ttl → env.hops < 10 → (advance_ttl env 10).1 ≡ true
unfolding advance_ttl
advance_ttl-passes env alive near = ground arith

advance_ttl-counters :
    (env : Envelope)
    → 0 < env.ttl
    → env.hops < 10
    → ((advance_ttl env 10).0.ttl + 1 ≡ env.ttl) × ((advance_ttl env 10).0.hops ≡ env.hops + 1)
unfolding advance_ttl
advance_ttl-counters env alive near = ground arith

SameMessage-refl : (env : Envelope) → SameMessage env env
SameMessage-refl env = ground arith

handle_inbound-relays :
    (h : Hop) (m a : Envelope) (to : IdentityId)
    → m.recipient ≡ some to
    → SameMessage m a
    → IsRelay m h
    → 0 < a.ttl
    → a.hops < 10
    → (after : Node) × (handle_inbound h.node h.now h.instant a
        ≡ some (after, send_all h.node.transports (advance_ttl a 10).0))
unfolding handle_inbound
handle_inbound-relays h m a to addressee same r alive near =
    let entry : IsAdmissible h.node.router h.now a = record {
      near = omega (arith, r.limit, near);
      alive = inl alive;
      not_future = omega (arith, same.timestamp_ns, r.not_future);
      not_old = omega (arith, same.timestamp_ns, r.not_old);
    } in
    let unknown : seen_at h.node.router.table a.id ≡ none =
      ap (seen_at h.node.router.table) (sym same.id) ∙ r.unseen in
    let decided = ((route_inbound_steps h.node.router h.now h.instant a r.far).3 entry unknown).0 in
    let relays : decide h.node.router a ≡ relay =
      decide-relay h.node.router a to (sym same.recipient ∙ addressee)
        (λ e. r.elsewhere (addressee ∙ ap some e)) alive in
    let after = record h.node { router = (route_inbound h.node.router h.now h.instant a).0 } in
    let limit : after.router.max_hops ≡ 10 =
      max_hops-route_inbound h.node.router h.now h.instant a ∙ r.limit in
    let passes : (advance_ttl a after.router.max_hops).1 ≡ true =
      rw limit (advance_ttl-passes a alive near) in
    let acted : act after a (ok (decide h.node.router a))
        ≡ some (send_all h.node.transports (advance_ttl a 10).0) =
      ap (λ d. act after a (ok d)) relays
      ∙ act-relay after a passes
      ∙ ap (λ k. some (send_all h.node.transports (advance_ttl a k).0)) limit in
    let foreign = foreign_sender a h.node.our_id (λ e. r.foreign (same.sender ∙ e)) in
    (after, rw (foreign, decided, acted) refl)

-- Relays that can pass a message on carry it, one after the other, if its counters allow that many.
carried :
    (hs : List Hop) (m a : Envelope) (to : IdentityId)
    → m.recipient ≡ some to
    → SameMessage m a
    → All (IsRelay m) hs
    → length hs ≤ a.ttl
    → a.hops + length hs ≤ 10
    → (b : Envelope) × Carries hs a b
      × SameMessage m b
      × (b.ttl + length hs ≡ a.ttl)
      × (b.hops ≡ a.hops + length hs)
unfolding Carries
carried [] m a to addressee same rs alive near = (a, refl, same, omega arith, omega arith)
carried (h ∷ hs) m a to addressee same (r, rs) alive near =
    let (after, sends) =
      handle_inbound-relays h m a to addressee same r (omega (arith, alive))
        (omega (arith, near)) in
    let (ttl, hops) = advance_ttl-counters a (omega (arith, alive)) (omega (arith, near)) in
    let next = (advance_ttl a 10).0 in
    let (b, way, message, ttl', hops') =
      carried hs m next to addressee (SameMessage-trans same (advance_ttl-SameMessage a 10)) rs
        (omega (arith, alive, ttl)) (omega (arith, near, hops)) in
    (
      b,
      (after, next, sends, r.wired, way),
      message,
      omega (arith, ttl, ttl'),
      omega (arith, hops, hops'),
    )

-- A direct text reaches the node of its recipient over any relays that can pass it on, fewer than its
-- ttl, and ten at most with the hops it has: each sends on over its transports what the next one
-- gets, and at the end the recipient's node prints the start of the sender's identifier and the text.
-- The sender has an identifier of 64 hexadecimal digits and is not the recipient, by whose clock the
-- envelope is fresh, and who has no envelope with its identifier on record.
pub handle_inbound-Carries :
    (hs : List Hop) (m : Envelope) (body : Text) (node : Node) (now instant : ℕ)
    → m.kind ≡ direct
    → m.recipient ≡ some node.router.our_id
    → m.payload ≡ text body
    → length m.sender ≡ 64
    → all_hexdigits m.sender ≡ true
    → All (IsRelay m) hs
    → length hs < m.ttl
    → m.hops + length hs ≤ 10
    → m.sender ≢ node.our_id
    → node.router.max_hops ≡ 10
    → m.timestamp_ns ≤ now + max_skew_ns
    → now ≤ m.timestamp_ns + max_age_ns
    → now + max_skew_ns + max_age_ns < u64_mod
    → seen_at node.router.table m.id ≡ none
    → (b : Envelope) × Carries hs m b
      × ((after : Node) × (handle_inbound node now instant b
            ≡ some (after, printed (take 8 m.sender) body ∷ [])))
handle_inbound-Carries hs m body node now instant kind to payload sized hexadecimal rs alive near
      foreign limit not_future not_old far new =
    let (b, way, same, ttl, hops) =
      carried hs m m node.router.our_id to (SameMessage-refl m) rs (omega (arith, alive)) near in
    let entry : IsAdmissible node.router now b = record {
      near = omega (arith, limit, hops, near);
      alive = inl (omega (arith, ttl, alive));
      not_future = omega (arith, same.timestamp_ns, not_future);
      not_old = omega (arith, same.timestamp_ns, not_old);
    } in
    let (after, prints) =
      handle_inbound-prints node now instant b body (sym same.kind ∙ kind) (sym same.recipient ∙ to)
        (sym same.payload ∙ payload) (ap length (sym same.sender) ∙ sized)
        (ap all_hexdigits (sym same.sender) ∙ hexadecimal) (λ e. foreign (same.sender ∙ e)) entry
        (ap (seen_at node.router.table) (sym same.id) ∙ new) far in
    (
      b,
      way,
      (after, prints ∙ ap (λ s. some (after, printed (take 8 s) body ∷ [])) (sym same.sender)),
    )
