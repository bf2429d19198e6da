-- ===== src/Cli/Serve/Cases.antt =====
-- aegis-mesh/crates/aegis-cli/src/commands/serve.rs: the ways in which a node handles an envelope.
use aegis_mesh.Base.{
  ℕ, ◌≡◌, ◌⊎◌, inl, inr, arith, some, List, [], Bool-cases, Option-cases, ◌==◌, nat_eq, list_eq,
}
use aegis_mesh.Messaging.Envelope.{Envelope}
use aegis_mesh.Mesh.Router.{route_inbound}
use aegis_mesh.Cli.Serve.{Node, Effect, act, handle_inbound}

-- The node with the router as the decision leaves it.
abbrev pub routed : Node → ℕ → ℕ → Envelope → Node
routed node now instant env = record node { router = (route_inbound node.router now instant env).0 }

-- An own envelope is passed over, and any other acted on as the router decides.
pub handle_inbound_cases :
    (node : Node) (now instant : ℕ) (env : Envelope) (after : Node) (effects : List Effect)
    → handle_inbound node now instant env ≡ some (after, effects)
    → ((after ≡ node) × (effects ≡ []))
      ⊎ ((after ≡ routed node now instant env)
          × (act (routed node now instant env) env (route_inbound node.router now instant env).1
              ≡ some effects))
unfolding handle_inbound
handle_inbound_cases node now instant env after effects h =
    elim (Bool-cases (env.sender == node.our_id)) [
      | inl own ↦ inl (ground (arith, own), ground (arith, own))
      | inr other ↦
          elim (Option-cases
            (act (routed node now instant env) env (route_inbound node.router now instant env).1)) [
              | inl panicked ↦ absurd (ground (arith, other, panicked))
              | inr (done, a) ↦ inr (ground (arith, other, a), ground (arith, other, a))
            ]
    ]
