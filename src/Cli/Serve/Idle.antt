-- ===== src/Cli/Serve/Idle.antt =====
-- aegis-mesh/crates/aegis-cli/src/commands/serve.rs: what a running node never learns.
use aegis_mesh.Base.{
  ℕ, ◌≡◌, refl, ap, ◌∙◌, inl, inr, arith, none, some, List, [], ◌∷◌, Option-cases, nat_eq, list_eq,
}
use aegis_mesh.Base.Map
use aegis_mesh.Base.Text.{Bytes}
use aegis_mesh.Crypto.IdentityId.{IdentityId}
use aegis_mesh.Crypto.Primitives.{Ed25519}
use aegis_mesh.Messaging.Envelope.{Envelope}
use aegis_mesh.Messaging.Envelope.Wire.{Codec}
use aegis_mesh.Mesh.Peer.{neighbor_ids}
use aegis_mesh.Mesh.Peer
use aegis_mesh.Mesh.Router.{
  Router, RouteTable, route_inbound, check_and_record, gc_seen, forward_targets, flood, next_hop,
  new_table,
}
use aegis_mesh.Mesh.Router
use aegis_mesh.Mesh.StoreForward
use aegis_mesh.Cli.Serve.{
  Node, Effect, new, announce, Event, received, announced, collected, step, run,
}
use aegis_mesh.Cli.Serve.Cases.{routed, handle_inbound_cases}

record IsIdle (node : Node) : Type 0 where
  peers : node.peers ≡ Peer.new
  waiting : node.store_forward ≡ StoreForward.new
  routes : node.router.table.routes ≡ []

route_inbound-routes :
    (r : Router) (now instant : ℕ) (env : Envelope)
    → (route_inbound r now instant env).0.table.routes ≡ r.table.routes
unfolding route_inbound check_and_record
route_inbound-routes r now instant env = ground arith

routed-IsIdle :
    (node : Node) (now instant : ℕ) (env : Envelope)
    → IsIdle node
    → IsIdle (routed node now instant env)
routed-IsIdle node now instant env i = record {
  peers = i.peers;
  waiting = i.waiting;
  routes = route_inbound-routes node.router now instant env ∙ i.routes;
}

next_hop_none : (t : RouteTable) (dest : IdentityId) → t.routes ≡ [] → next_hop t dest ≡ none
unfolding next_hop Map.get
next_hop_none t dest h = rw (h, next_hop) refl

forward_targets_none :
    (r : Router) (env : Envelope) → r.table.routes ≡ [] → forward_targets r env [] ≡ []
unfolding forward_targets flood
forward_targets_none r env h = elim (Option-cases env.recipient) [
  | inl all ↦ rw (all, forward_targets) refl
  | inr (to, one) ↦ rw (one, next_hop_none r.table to h, forward_targets) refl
]

neighbor_ids-new : neighbor_ids Peer.new ≡ []
unfolding neighbor_ids Peer.new
neighbor_ids-new = refl

module _ (codec : Codec) (ed : Ed25519) where
  step-IsIdle :
      (node : Node) (e : Event) (after : Node) (effects : List Effect)
      → IsIdle node
      → step codec ed node e ≡ some (after, effects)
      → IsIdle after
  unfolding step
  step-IsIdle node (received now instant env) after effects i h =
      elim (handle_inbound_cases node now instant env after effects h) [
        | inl (same, nothing) ↦ rw same i
        | inr (same, a) ↦ rw same (routed-IsIdle node now instant env i)
      ]
  step-IsIdle node (announced now) after effects i h =
      let same : (announce codec ed node now).0 ≡ after = cc in
      rw (← same)
        (unfold announce in record { peers = i.peers; waiting = i.waiting; routes = i.routes })
  step-IsIdle node (collected instant) after effects i h =
      let same : record node {
        router = record node.router { table = gc_seen node.router.table instant };
      }
          ≡ after =
        cc in
      rw (← same)
        (unfold gc_seen in record { peers = i.peers; waiting = i.waiting; routes = i.routes })

  run-IsIdle :
      (node : Node) (es : List Event) (after : Node) (effects : List Effect)
      → IsIdle node
      → run codec ed node es ≡ some (after, effects)
      → IsIdle after
  unfolding run
  run-IsIdle node [] after effects i h = let same : node ≡ after = cc in rw (← same) i
  run-IsIdle node (e ∷ es) after effects i h = elim (Option-cases (step codec ed node e)) [
    | inl panicked ↦ absurd (ground (arith, panicked))
    | inr ((next, shown), s) ↦ elim (Option-cases (run codec ed next es)) [
      | inl panicked ↦ absurd (ground (arith, s, panicked))
      | inr ((last, more), r) ↦
          let same : last ≡ after = ground (arith, s, r) in
          rw (← same) (run-IsIdle next es last more (step-IsIdle node e next shown i s) r)
    ]
  ]

  -- Whatever a new node receives, and as long as it runs, it learns no route and no peer and keeps no
  -- message for later, so that the targets which it computes for an envelope are always none.
  pub run-new :
      (our_id : IdentityId) (signing_key verifying_key : Bytes) (transports : ℕ) (es : List Event)
      (after : Node) (effects : List Effect)
      → run codec ed (new our_id signing_key verifying_key transports) es ≡ some (after, effects)
      → (after.peers ≡ Peer.new)
        × (after.store_forward ≡ StoreForward.new)
        × (after.router.table.routes ≡ [])
        × ((env : Envelope) → forward_targets after.router env (neighbor_ids after.peers) ≡ [])
  unfolding new
  run-new our_id signing_key verifying_key transports es after effects h =
      let start : IsIdle (new our_id signing_key verifying_key transports) = record {
        peers = refl;
        waiting = refl;
        routes = unfold Router.new new_table in refl;
      } in
      let i =
        run-IsIdle (new our_id signing_key verifying_key transports) es after effects start h in
      (
        i.peers,
        i.waiting,
        i.routes,
        λ env.
            ap (λ reg. forward_targets after.router env (neighbor_ids reg)) i.peers
            ∙ ap (forward_targets after.router env) neighbor_ids-new
            ∙ forward_targets_none after.router env i.routes,
      )
