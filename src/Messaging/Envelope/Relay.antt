-- ===== src/Messaging/Envelope/Relay.antt =====
-- aegis-mesh/crates/aegis-core/src/messaging/envelope.rs: the life of an envelope under
-- `advance_ttl`, as it passes from relay to relay.
use aegis_mesh.Base.{ℕ, zero, suc, ◌+◌, ◌≤◌, ◌<◌, ◌≡◌, ◌↔◌, ◌⊎◌, true, false, arith}
use aegis_mesh.Messaging.Envelope.{Envelope, advance_ttl}

-- A relay passes the envelope on exactly when both counters allow it. Then it takes one from the
-- ttl and adds one to the hops, and otherwise it changes nothing.
pub advance_ttl_cases :
    (env : Envelope) (max_hops : ℕ)
    → max_hops < 256
    → ((0 < env.ttl)
        × (env.hops < max_hops)
        × ((advance_ttl env max_hops).1 ≡ true)
        × ((advance_ttl env max_hops).0.ttl + 1 ≡ env.ttl)
        × ((advance_ttl env max_hops).0.hops ≡ env.hops + 1))
      ⊎ (((env.ttl ≡ 0) ⊎ (max_hops ≤ env.hops)) × (advance_ttl env max_hops ≡ (env, false)))
unfolding advance_ttl
advance_ttl_cases env max_hops h = ground arith

-- The envelope at the end of a chain of `n` relays that all pass it on.
pub data Relayed (max_hops : ℕ) : ℕ → Envelope → Envelope → Type 0 where
  sent : (env : Envelope) → Relayed max_hops 0 env env
  hop :
      {n : ℕ} {a b : Envelope}
      → Relayed max_hops n a b
      → (advance_ttl b max_hops).1 ≡ true
      → Relayed max_hops (suc n) a (advance_ttl b max_hops).0

-- The fields that no relay touches.
pub record SameMessage (a b : Envelope) : Type 0 where
  pub version : a.version ≡ b.version
  pub id : a.id ≡ b.id
  pub kind : a.kind ≡ b.kind
  pub sender : a.sender ≡ b.sender
  pub recipient : a.recipient ≡ b.recipient
  pub channel : a.channel ≡ b.channel
  pub payload : a.payload ≡ b.payload
  pub timestamp_ns : a.timestamp_ns ≡ b.timestamp_ns
  pub priority : a.priority ≡ b.priority
  pub flags : a.flags ≡ b.flags
  pub signature : a.signature ≡ b.signature

pub advance_ttl-SameMessage :
    (env : Envelope) (max_hops : ℕ) → SameMessage env (advance_ttl env max_hops).0
unfolding advance_ttl
advance_ttl-SameMessage env max_hops = ground arith

pub SameMessage-trans : {a b c : Envelope} → SameMessage a b → SameMessage b c → SameMessage a c
SameMessage-trans p q = ground arith

advance_ttl_passed :
    (env : Envelope) (max_hops : ℕ)
    → max_hops < 256
    → (advance_ttl env max_hops).1 ≡ true
    → ((advance_ttl env max_hops).0.ttl + 1 ≡ env.ttl)
      × ((advance_ttl env max_hops).0.hops ≡ env.hops + 1)
      × (env.hops < max_hops)
unfolding advance_ttl
advance_ttl_passed env max_hops h e = ground arith

-- However the mesh is wired, `n` relays in a row cost `n` of the ttl and add `n` hops, and the hops
-- stay within `max_hops`, if they did at first. The message itself is unchanged.
pub Relayed_bounds :
    {max_hops n : ℕ} {a b : Envelope}
    → max_hops < 256
    → a.hops ≤ max_hops
    → Relayed max_hops n a b
    → (b.ttl + n ≡ a.ttl) × (b.hops ≡ a.hops + n) × (b.hops ≤ max_hops) × SameMessage a b
Relayed_bounds h k (sent env) = (omega arith, omega arith, k, ground arith)
Relayed_bounds {max_hops} h k (hop {b = b} r e) =
    let ih = Relayed_bounds h k r in
    let now = advance_ttl_passed b max_hops h e in
    (
      omega arith,
      omega arith,
      omega arith,
      SameMessage-trans ih.3 (advance_ttl-SameMessage b max_hops),
    )

may_advance_ttl :
    (env : Envelope) (max_hops : ℕ)
    → 0 < env.ttl
    → env.hops < max_hops
    → (advance_ttl env max_hops).1 ≡ true
unfolding advance_ttl
may_advance_ttl env max_hops t h = ground arith

Relayed-exists :
    (n max_hops : ℕ) (a : Envelope)
    → max_hops < 256
    → n ≤ a.ttl
    → a.hops + n ≤ max_hops
    → (b : Envelope) × Relayed max_hops n a b
Relayed-exists zero max_hops a h t k = (a, sent a)
Relayed-exists (suc n) max_hops a h t k =
    let (b, r) = Relayed-exists n max_hops a h (omega arith) (omega arith) in
    let now = Relayed_bounds h (omega arith) r in
    ((advance_ttl b max_hops).0, hop r (may_advance_ttl b max_hops (omega arith) (omega arith)))

-- An envelope can pass through `n` relays in a row exactly when its ttl allows `n` steps and the
-- limit on hops leaves room for `n` more.
pub Relayed_iff :
    (n max_hops : ℕ) (a : Envelope)
    → max_hops < 256
    → a.hops ≤ max_hops
    → ((b : Envelope) × Relayed max_hops n a b) ↔ ((n ≤ a.ttl) × (a.hops + n ≤ max_hops))
Relayed_iff n max_hops a h k = (
  (λ (b, r). let now = Relayed_bounds h k r in (omega arith, omega arith)),
  (λ (t, room). Relayed-exists n max_hops a h t room),
)
