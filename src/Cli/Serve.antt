-- ===== src/Cli/Serve.antt =====
-- aegis-mesh/crates/aegis-cli/src/commands/serve.rs: a running node, which composes the router, the
-- registry of peers and the transports. A transport is what was handed to its `send`, the results of
-- which the node ignores. JSON and Ed25519 are parameters; the clocks are arguments. An envelope that is
-- received is one that the main loop was handed: the channels from the transports to it are outside.
pub mod Cases
pub mod Display
pub mod Replay
pub mod Idle
pub mod Flood
pub mod Arrive
pub mod Passage
use aegis_mesh.Base.{
  ℕ, zero, suc, ◌+◌, ◌%◌, ◌^◌, ◌≡◌, Bool, true, false, not, ◌&&◌, ◌||◌, Option, none, some, List,
  [], ◌∷◌, ◌++◌, take, length, leb, ltb, ◌==◌, nat_eq, list_eq, if◌then◌else◌,
}
use Prim.Native.Nat.{min}
use aegis_mesh.Base.Text.{Bytes, Text}
use aegis_mesh.Crypto.IdentityId.{IdentityId}
use aegis_mesh.Crypto.Primitives.{Ed25519}
use aegis_mesh.Error.{Result, ok, err, is_err}
use aegis_mesh.Mesh.Peer.{PeerRegistry, neighbor_ids}
use aegis_mesh.Mesh.Peer
use aegis_mesh.Mesh.Router.{
  Router, RouteDecision, deliver, deliver_and_relay, relay, drop, route_inbound, forward_targets,
  gc_seen,
}
use aegis_mesh.Mesh.Router
use aegis_mesh.Mesh.StoreForward.{StoreForward}
use aegis_mesh.Mesh.StoreForward
use aegis_mesh.Messaging.Envelope.{Envelope, Now, advance_ttl, route_announce}
use aegis_mesh.Messaging.Envelope.Body.{Payload, text}
use aegis_mesh.Messaging.Envelope.Wire.{Codec, sign}

pub record Node : Type 0 where
  pub our_id : IdentityId
  pub router : Router
  pub store_forward : StoreForward
  pub peers : PeerRegistry
  -- The number of transports that are enabled.
  pub transports : ℕ
  pub signing_key : Bytes
  pub verifying_key : Bytes
  -- The sequence number of the announcements.
  pub seq : ℕ

-- What a node does to the outside.
pub data Effect : Type 0 where
  -- the start of the sender's identifier, and the text
  printed : Text → Text → Effect
  -- the transport, by its number, and the envelope
  sent : ℕ → Envelope → Effect

unfoldable pub new : IdentityId → Bytes → Bytes → ℕ → Node
new our_id signing_key verifying_key transports = record {
  our_id = our_id;
  router = Router.new our_id 10;
  store_forward = StoreForward.new;
  peers = Peer.new;
  transports = transports;
  signing_key = signing_key;
  verifying_key = verifying_key;
  seq = 0;
}

-- Whether a text may be cut before its byte number `n`.
unfoldable pub is_char_boundary : Text → ℕ → Bool
is_char_boundary [] n = n == 0
is_char_boundary (b ∷ s) zero = ltb b 128 || leb 192 b
is_char_boundary (b ∷ s) (suc n) = is_char_boundary s n

-- The slice of the sender's identifier panics inside a character.
unfoldable pub display : Envelope → Option (List Effect)
display env = elim env.payload [
  | text body ↦
      let n = min 8 (length env.sender) in
      if is_char_boundary env.sender n then some (printed (take n env.sender) body ∷ []) else none
  | _ ↦ some []
]

-- `for t in transports { let _ = t.send(&env).await; }`
unfoldable pub send_all : ℕ → Envelope → List Effect
send_all zero env = []
send_all (suc n) env = send_all n env ++ sent n env ∷ []

-- The targets are computed and not used.
unfoldable pub relay_env : Node → Envelope → List Effect
relay_env node env =
    let (passed, may_pass) = advance_ttl env node.router.max_hops in
    let targets = forward_targets node.router passed (neighbor_ids node.peers) in
    if may_pass then send_all node.transports passed else []

-- What follows from a decision; `none` is a panic.
unfoldable pub act : Node → Envelope → Result RouteDecision → Option (List Effect)
act node env (ok deliver) = display env
act node env (ok deliver_and_relay) = elim (display env) [
  | none ↦ none
  | some shown ↦ some (shown ++ relay_env node env)
]
act node env (ok relay) = some (relay_env node env)
act node env (ok drop) = some []
act node env (err e) = some []

-- A panic ends the node.
unfoldable pub handle_inbound : Node → ℕ → ℕ → Envelope → Option (Node × List Effect)
handle_inbound node now instant env =
    if env.sender == node.our_id
    then some (node, [])
    else (let (router, decision) = route_inbound node.router now instant env in
        let after = record node { router = router } in
        elim (act after env decision) [ none ↦ none | some effects ↦ some (after, effects) ])

-- What the tasks of a node wait for: an envelope, the time of an announcement, the time to collect.
pub data Event : Type 0 where
  received : ℕ → ℕ → Envelope → Event
  announced : Now → Event
  collected : ℕ → Event

module _ (codec : Codec) (ed : Ed25519) where
  -- One round of the task that announces the node.
  unfoldable pub announce : Node → Now → Node × List Effect
  announce node now =
      let seq = (node.seq + 1) % 2 ^ 64 in
      let after = record node { seq = seq } in
      let env =
        route_announce now node.router.our_id node.router.our_id node.verifying_key 0 seq 10 in
      let (signed, reply) = sign codec ed env node.signing_key in
      (after, if is_err reply then [] else send_all node.transports signed)

  unfoldable pub step : Node → Event → Option (Node × List Effect)
  step node (received now instant env) = handle_inbound node now instant env
  step node (announced now) = some (announce node now)
  step node (collected instant) = some (
    record node { router = record node.router { table = gc_seen node.router.table instant } },
    [],
  )

  -- The node and its effects after some events; `none` if it panicked.
  unfoldable pub run : Node → List Event → Option (Node × List Effect)
  run node [] = some (node, [])
  run node (e ∷ es) = elim (step node e) [
    | none ↦ none
    | some (after, effects) ↦ elim (run after es) [
      | none ↦ none
      | some (last, more) ↦ some (last, effects ++ more)
    ]
  ]
