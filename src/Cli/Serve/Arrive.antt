-- ===== src/Cli/Serve/Arrive.antt =====
-- aegis-mesh/crates/aegis-cli/src/commands/serve.rs: a direct text at the node of its recipient.
use aegis_mesh.Base.{
  ℕ, ◌+◌, ◌<◌, ◌≡◌, ◌≢◌, refl, ap, ◌∙◌, inl, inr, arith, true, false, none, some, [], ◌∷◌, take,
  length, Bool-cases, ◌==◌, ==_iff, ==_refl, nat_eq, list_eq,
}
use Prim.Native.Nat.{min}
use aegis_mesh.Base.Text.{Text, all_hexdigits}
use aegis_mesh.Crypto.IdentityId.{IdentityId}
use aegis_mesh.Error.{ok}
use aegis_mesh.Mesh.Router.{
  deliver, decide, for_us, should_relay, route_inbound, max_skew_ns, max_age_ns,
}
use aegis_mesh.Mesh.Router.Inbound.{IsAdmissible, route_inbound_steps}
use aegis_mesh.Mesh.Router.Tables.{seen_at}
use aegis_mesh.Messaging.Envelope.{Envelope, u64_mod}
use aegis_mesh.Messaging.Envelope.Kind.{direct}
use aegis_mesh.Messaging.Envelope.Body.{text}
use aegis_mesh.Cli.Serve.{Node, printed, display, act, handle_inbound}
use aegis_mesh.Cli.Serve.Display.{hexdigits-is_char_boundary}

decide-direct :
    (node : Node) (env : Envelope)
    → env.kind ≡ direct
    → env.recipient ≡ some node.router.our_id
    → decide node.router env ≡ deliver
unfolding decide for_us should_relay
decide-direct node env kind to = rw (kind, to, ==_refl node.router.our_id) refl

display-text :
    (env : Envelope) (body : Text)
    → env.payload ≡ text body
    → length env.sender ≡ 64
    → all_hexdigits env.sender ≡ true
    → display env ≡ some (printed (take 8 env.sender) body ∷ [])
unfolding display
display-text env body payload sized hexadecimal =
    let eight : min 8 (length env.sender) ≡ 8 = omega arith in
    let cut = hexdigits-is_char_boundary env.sender 8 hexadecimal (omega arith) in
    rw (payload, eight, cut, display) refl

act-deliver : (node : Node) (env : Envelope) → act node env (ok deliver) ≡ display env
unfolding act
act-deliver node env = refl

pub foreign_sender :
    (env : Envelope) (me : IdentityId) → env.sender ≢ me → (env.sender == me) ≡ false
foreign_sender env me other = elim (Bool-cases (env.sender == me)) [
  | inl own ↦ absurd (other ((==_iff env.sender me).0 own))
  | inr b ↦ b
]

-- The node of the recipient prints a direct text that is admissible and new to it.
pub handle_inbound-prints :
    (node : Node) (now instant : ℕ) (env : Envelope) (body : Text)
    → env.kind ≡ direct
    → env.recipient ≡ some node.router.our_id
    → env.payload ≡ text body
    → length env.sender ≡ 64
    → all_hexdigits env.sender ≡ true
    → env.sender ≢ node.our_id
    → IsAdmissible node.router now env
    → seen_at node.router.table env.id ≡ none
    → now + max_skew_ns + max_age_ns < u64_mod
    → (after : Node) × (handle_inbound node now instant env
        ≡ some (after, printed (take 8 env.sender) body ∷ []))
unfolding handle_inbound
handle_inbound-prints node now instant env body kind to payload sized hexadecimal other entry new
      far =
    let decided = ((route_inbound_steps node.router now instant env far).3 entry new).0 in
    let after = record node { router = (route_inbound node.router now instant env).0 } in
    let acted : act after env (ok (decide node.router env))
        ≡ some (printed (take 8 env.sender) body ∷ []) =
      ap (λ d. act after env (ok d)) (decide-direct node env kind to)
      ∙ act-deliver after env
      ∙ display-text env body payload sized hexadecimal in
    (after, rw (foreign_sender env node.our_id other, decided, acted) refl)
