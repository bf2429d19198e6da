-- ===== src/Cli/Serve/Replay.antt =====
-- aegis-mesh/crates/aegis-cli/src/commands/serve.rs: a message shows and goes out once.
use aegis_mesh.Base.{
  ℕ, ◌+◌, ◌<◌, ◌≡◌, ◌≢◌, refl, inl, inr, arith, some, List, [], ◌∷◌, All, Option-cases, Bool-cases,
  ◌==◌, nat_eq, list_eq,
}
use aegis_mesh.Crypto.Primitives.{Ed25519}
use aegis_mesh.Error.{ok}
use aegis_mesh.Messaging.Envelope.{Envelope}
use aegis_mesh.Messaging.Envelope.Id.{EnvelopeId}
use aegis_mesh.Messaging.Envelope.Wire.{Codec}
use aegis_mesh.Mesh.Router.{drop, route_inbound, gc_seen}
use aegis_mesh.Mesh.Router.Replay.{
  inbound, collect, CollectsBefore, Remembers, step-Remembers, route_inbound-Remembers,
  route_inbound_known,
}
use aegis_mesh.Mesh.Router.Replay
use aegis_mesh.Mesh.Router.Tables.{IsTable, seen_at}
use aegis_mesh.Cli.Serve.{
  Node, Effect, act, handle_inbound, announce, Event, received, announced, collected, step, run,
}
use aegis_mesh.Cli.Serve.Cases.{routed, handle_inbound_cases}

-- Every collection comes before this instant.
abbrev pub CollectsEarly : ℕ → Event → Type 0
CollectsEarly limit (received now instant env) = Unit
CollectsEarly limit (announced now) = Unit
CollectsEarly limit (collected instant) = instant < limit

module _ (codec : Codec) (ed : Ed25519) (id : EnvelopeId) (at life : ℕ) (alive : 0 < life) where
  step-Remembers_node :
      (node : Node) (e : Event) (after : Node) (effects : List Effect)
      → CollectsEarly (at + life) e
      → Remembers id at life node.router
      → step codec ed node e ≡ some (after, effects)
      → Remembers id at life after.router
  unfolding step
  step-Remembers_node node (received now instant env) after effects early m h =
      elim (handle_inbound_cases node now instant env after effects h) [
        | inl (same, nothing) ↦ rw same m
        | inr (same, a) ↦ rw same (
            unfold Replay.step in
            step-Remembers id at life node.router (inbound now instant env) alive tt m)
      ]
  step-Remembers_node node (announced now) after effects early m h =
      let same : (announce codec ed node now).0 ≡ after = cc in rw (← same) (unfold announce in m)
  step-Remembers_node node (collected instant) after effects early m h =
      let same : record node {
        router = record node.router { table = gc_seen node.router.table instant };
      }
          ≡ after =
        cc in
      rw (← same) (
        unfold Replay.step in step-Remembers id at life node.router (collect instant) alive early m)

  run-Remembers_node :
      (node : Node) (es : List Event) (after : Node) (effects : List Effect)
      → All (CollectsEarly (at + life)) es
      → Remembers id at life node.router
      → run codec ed node es ≡ some (after, effects)
      → Remembers id at life after.router
  unfolding run
  run-Remembers_node node [] after effects early m h = let same : node ≡ after = cc in rw (← same) m
  run-Remembers_node node (e ∷ es) after effects early m h =
      elim (Option-cases (step codec ed node e)) [
        | inl panicked ↦ absurd (ground (arith, panicked))
        | inr ((next, shown), s) ↦ elim (Option-cases (run codec ed next es)) [
          | inl panicked ↦ absurd (ground (arith, s, panicked))
          | inr ((last, more), r) ↦
              let same : last ≡ after = ground (arith, s, r) in
              rw (← same) (
                run-Remembers_node next es last more early.1
                  (step-Remembers_node node e next shown early.0 m s) r)
        ]
      ]

act-drop :
    (node : Node) (env : Envelope) (effects : List Effect)
    → act node env (ok drop) ≡ some effects
    → effects ≡ []
unfolding act
act-drop node env effects h = cc

-- An envelope that the router knows has no effect.
handle_inbound_known :
    (node : Node) (now instant at : ℕ) (env : Envelope)
    → seen_at node.router.table env.id ≡ some at
    → ((after : Node) × (handle_inbound node now instant env ≡ some (after, [])))
unfolding handle_inbound act
handle_inbound_known node now instant at env h =
    let known = route_inbound_known node.router now instant at env h in
    elim (Bool-cases (env.sender == node.our_id)) [
      | inl own ↦ (node, rw own refl)
      | inr other ↦ (routed node now instant env, rw (other, known) refl)
    ]

-- Once an envelope was printed or passed on, one with its identifier is neither printed nor passed
-- on, whatever the node received in between, as long as each collection of the duplicate filter in
-- between came less than its lifetime after the first arrival.
pub handle_inbound_once :
    (codec : Codec) (ed : Ed25519) (node next after : Node) (now instant later at : ℕ)
    (env again : Envelope) (effects more : List Effect) (es : List Event)
    → IsTable node.router.table
    → 0 < node.router.table.seen_ttl
    → handle_inbound node now instant env ≡ some (next, effects)
    → effects ≢ []
    → run codec ed next es ≡ some (after, more)
    → All (CollectsEarly (instant + node.router.table.seen_ttl)) es
    → again.id ≡ env.id
    → ((last : Node) × (handle_inbound after later at again ≡ some (last, [])))
handle_inbound_once codec ed node next after now instant later at env again effects more es table
      alive first visible r early same =
    elim (handle_inbound_cases node now instant env next effects first) [
      | inl (unchanged, nothing) ↦ absurd (visible nothing)
      | inr (there, a) ↦
          let passed : (route_inbound node.router now instant env).1 ≢ ok drop = λ dropped.
            visible (act-drop (routed node now instant env) env effects (rw dropped at a)) in
          let recorded = route_inbound-Remembers node.router now instant env table passed in
          let m =
            run-Remembers_node codec ed env.id instant node.router.table.seen_ttl alive next es
              after more early (rw there recorded) r in
          handle_inbound_known after later at instant again (rw same m.recorded)
    ]
