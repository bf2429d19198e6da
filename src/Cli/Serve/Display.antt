-- ===== src/Cli/Serve/Display.antt =====
-- aegis-mesh/crates/aegis-cli/src/commands/serve.rs: the line that is printed for a text, and when
-- printing it panics.
use aegis_mesh.Base.{
  ℕ, zero, suc, ◌+◌, ◌≤◌, ◌<◌, ◌≡◌, ◌≢◌, refl, inl, inr, arith, true, false, none, some, List, [],
  ◌∷◌, ◌++◌, All, length, Bool-cases, Option-cases, ◌==◌, ==_iff, nat_eq, list_eq,
}
use Prim.Native.Nat.{min}
use aegis_mesh.Base.Text.{Text, all_hexdigits, is_ascii_hexdigit}
use aegis_mesh.Crypto.Primitives.{Ed25519}
use aegis_mesh.Error.{Result, ok, err}
use aegis_mesh.Messaging.Envelope.{Envelope, u64_mod}
use aegis_mesh.Messaging.Envelope.Body.{text}
use aegis_mesh.Messaging.Envelope.Validate.{validate, validate-Passes}
use aegis_mesh.Messaging.Envelope.Wire.{Codec}
use aegis_mesh.Mesh.Router.{
  RouteDecision, deliver, deliver_and_relay, relay, drop, route_inbound, decide, max_skew_ns,
  max_age_ns,
}
use aegis_mesh.Mesh.Router.Inbound.{IsAdmissible, IsForUs, is_delivered, route_inbound_steps}
use aegis_mesh.Mesh.Router.Tables.{seen_at}
use aegis_mesh.Cli.Serve.{
  Node, Effect, is_char_boundary, display, relay_env, act, handle_inbound, Event, received,
  announced, collected, step, run,
}

pub hexdigits-is_char_boundary :
    (s : Text) (n : ℕ) → all_hexdigits s ≡ true → n ≤ length s → is_char_boundary s n ≡ true
unfolding all_hexdigits is_char_boundary is_ascii_hexdigit
hexdigits-is_char_boundary [] n h l = ground arith
hexdigits-is_char_boundary (c ∷ s) zero h l = ground arith
hexdigits-is_char_boundary (c ∷ s) (suc n) h l = ground (arith, hexdigits-is_char_boundary s n)

-- A hexadecimal identifier can be cut anywhere.
display-hexdigits :
    (env : Envelope)
    → all_hexdigits env.sender ≡ true
    → (effects : List Effect) × (display env ≡ some effects)
unfolding display
display-hexdigits env h =
    let cut = hexdigits-is_char_boundary env.sender (min 8 (length env.sender)) h (omega arith) in
    elim (Option-cases (display env)) [
      | inr shown ↦ shown
      | inl panicked ↦ absurd (ground (arith, panicked, cut))
    ]

act-hexdigits :
    (node : Node) (env : Envelope) (d : Result RouteDecision)
    → all_hexdigits env.sender ≡ true
    → (effects : List Effect) × (act node env d ≡ some effects)
unfolding act
act-hexdigits node env (ok deliver) h = display-hexdigits env h
act-hexdigits node env (ok deliver_and_relay) h =
    let (shown, e) = display-hexdigits env h in (shown ++ relay_env node env, rw (e, act) refl)
act-hexdigits node env (ok relay) h = (_, refl)
act-hexdigits node env (ok drop) h = (_, refl)
act-hexdigits node env (err e) h = (_, refl)

handle_inbound-hexdigits :
    (node : Node) (now instant : ℕ) (env : Envelope)
    → all_hexdigits env.sender ≡ true
    → handle_inbound node now instant env ≢ none
unfolding handle_inbound
handle_inbound-hexdigits node now instant env h panicked =
    let after = record node { router = (route_inbound node.router now instant env).0 } in
    let (effects, e) = act-hexdigits after env (route_inbound node.router now instant env).1 h in
    absurd (ground (arith, e, panicked))

abbrev pub IsHexSender : Event → Type 0
IsHexSender (received now instant env) = all_hexdigits env.sender ≡ true
IsHexSender (announced now) = Unit
IsHexSender (collected instant) = Unit

module _ (codec : Codec) (ed : Ed25519) where
  step-hexdigits : (node : Node) (e : Event) → IsHexSender e → step codec ed node e ≢ none
  unfolding step
  step-hexdigits node (received now instant env) h = handle_inbound-hexdigits node now instant env h
  step-hexdigits node (announced now) h = λ p. cc
  step-hexdigits node (collected instant) h = λ p. cc

  -- A node that receives envelopes of senders with hexadecimal identifiers only never panics.
  pub run-IsHexSender :
      (node : Node) (es : List Event)
      → All IsHexSender es
      → ((after : Node) × (effects : List Effect) × (run codec ed node es ≡ some (after, effects)))
  unfolding run
  run-IsHexSender node [] h = (node, [], refl)
  run-IsHexSender node (e ∷ es) h = elim (Option-cases (step codec ed node e)) [
    | inl panicked ↦ absurd (step-hexdigits node e h.0 panicked)
    | inr ((next, effects), s) ↦
        let (last, more, r) = run-IsHexSender next es h.1 in
        (last, effects ++ more, rw (s, r, run) refl)
  ]

act-panics :
    (node : Node) (env : Envelope) (d : RouteDecision)
    → display env ≡ none
    → is_delivered d ≡ true
    → act node env (ok d) ≡ none
unfolding act
act-panics node env deliver h e = h
act-panics node env deliver_and_relay h e = rw (h, act) refl
act-panics node env relay h e = cc
act-panics node env drop h e = cc

display-panics :
    (env : Envelope) (body : Text)
    → length env.sender ≡ 64
    → env.payload ≡ text body
    → is_char_boundary env.sender 8 ≡ false
    → display env ≡ none
unfolding display
display-panics env body l payload inside =
    let eight : min 8 (length env.sender) ≡ 8 = omega arith in
    rw (payload, eight, inside, display) refl

-- An envelope ends the node that it is for: one that validates, with a text, admissible by its clock
-- and counters, new to the duplicate filter and from another sender, if the identifier of that sender
-- has a character across its eighth byte boundary. Only the length of the identifier is validated.
pub handle_inbound-panics :
    (node : Node) (now instant : ℕ) (env : Envelope) (body : Text)
    → IsAdmissible node.router now env
    → IsForUs node.router env
    → seen_at node.router.table env.id ≡ none
    → now + max_skew_ns + max_age_ns < u64_mod
    → env.sender ≢ node.our_id
    → validate env ≡ ok tt
    → env.payload ≡ text body
    → is_char_boundary env.sender 8 ≡ false
    → handle_inbound node now instant env ≡ none
unfolding handle_inbound
handle_inbound-panics node now instant env body entry us new far other valid payload inside =
    let steps = route_inbound_steps node.router now instant env far in
    let (decided, delivers, relays) = steps.3 entry new in
    let sized : length env.sender ≡ 64 = (validate-Passes env valid).sender in
    let foreign : (env.sender == node.our_id) ≡ false =
      elim (Bool-cases (env.sender == node.our_id)) [
        | inl own ↦ absurd (other ((==_iff env.sender node.our_id).0 own))
        | inr b ↦ b
      ] in
    let after = record node { router = (route_inbound node.router now instant env).0 } in
    rw
      (
        foreign,
        decided,
        act-panics after env (decide node.router env) (display-panics env body sized payload inside)
            (delivers.1 us),
      )
      refl
