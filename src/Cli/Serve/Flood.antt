-- ===== src/Cli/Serve/Flood.antt =====
-- aegis-mesh/crates/aegis-cli/src/commands/serve.rs: a flood through the mesh comes to its end.
use aegis_mesh.Base.{
  ℕ, zero, suc, ◌+◌, ◌*◌, ◌≤◌, ◌<◌, ◌≡◌, refl, ap, ◌⊎◌, inl, inr, arith, true, some, List, [], ◌∷◌,
  ◌++◌, All, All-append, length, Bool-cases, Option-cases, nat_eq, list_eq,
}
use aegis_mesh.Error.{Result, ok, err}
use aegis_mesh.Messaging.Envelope.{Envelope, advance_ttl}
use aegis_mesh.Mesh.Router.{route_inbound, RouteDecision, deliver, deliver_and_relay, relay, drop}
use aegis_mesh.Cli.Serve.Cases.{routed, handle_inbound_cases}
use aegis_mesh.Cli.Serve.{
  Node, Effect, printed, sent, display, send_all, relay_env, act, handle_inbound,
}

-- The envelopes that went out.
abbrev pub outgoing : List Effect → List Envelope
outgoing [] = []
outgoing (printed who body ∷ effects) = outgoing effects
outgoing (sent k env ∷ effects) = env ∷ outgoing effects

-- The cost of an envelope is at least this once it has been passed on.
abbrev pub IsOlder : Envelope → Envelope → Type 0
IsOlder env e = e.ttl + 1 ≡ env.ttl

outgoing-append : (xs ys : List Effect) → outgoing (xs ++ ys) ≡ outgoing xs ++ outgoing ys
outgoing-append [] ys = refl
outgoing-append (printed who body ∷ xs) ys = outgoing-append xs ys
outgoing-append (sent k env ∷ xs) ys = ap (◌∷◌ env) (outgoing-append xs ys)

outgoing-send_all :
    (P : Envelope → Type 0) (n : ℕ) (env : Envelope) → P env → All P (outgoing (send_all n env))
unfolding send_all
outgoing-send_all P zero env p = tt
outgoing-send_all P (suc n) env p =
    rw (outgoing-append (send_all n env) (sent n env ∷ []))
      (All-append P (outgoing (send_all n env)) (env ∷ []) (outgoing-send_all P n env p) (p, tt))

advance_ttl-IsOlder :
    (env : Envelope) (max_hops : ℕ)
    → (advance_ttl env max_hops).1 ≡ true
    → IsOlder env (advance_ttl env max_hops).0
unfolding advance_ttl
advance_ttl-IsOlder env max_hops h = ground arith

relay_env-IsOlder :
    (node : Node) (env : Envelope) → All (IsOlder env) (outgoing (relay_env node env))
unfolding relay_env
relay_env-IsOlder node env = elim (Bool-cases (advance_ttl env node.router.max_hops).1) [
  | inl passed ↦ rw passed (
      outgoing-send_all (IsOlder env) node.transports (advance_ttl env node.router.max_hops).0
        (advance_ttl-IsOlder env node.router.max_hops passed))
  | inr stopped ↦ rw stopped tt
]

display-outgoing :
    (env : Envelope) (effects : List Effect) → display env ≡ some effects → outgoing effects ≡ []
unfolding display
display-outgoing env effects h = ground arith

act-IsOlder :
    (node : Node) (env : Envelope) (d : Result RouteDecision) (effects : List Effect)
    → act node env d ≡ some effects
    → All (IsOlder env) (outgoing effects)
unfolding act
act-IsOlder node env (ok deliver) effects h = rw (display-outgoing env effects h) tt
act-IsOlder node env (ok deliver_and_relay) effects h = elim (Option-cases (display env)) [
  | inl panicked ↦ absurd (ground (arith, panicked))
  | inr (shown, e) ↦
      let same : shown ++ relay_env node env ≡ effects = ground (arith, e) in
      rw (← same) (
        rw (outgoing-append shown (relay_env node env), display-outgoing env shown e)
          (relay_env-IsOlder node env))
]
act-IsOlder node env (ok relay) effects h =
    let same : relay_env node env ≡ effects = cc in rw (← same) (relay_env-IsOlder node env)
act-IsOlder node env (ok drop) effects h = let same : [] ≡ effects = cc in rw (← same) tt
act-IsOlder node env (err e) effects h = let same : [] ≡ effects = cc in rw (← same) tt

-- Whatever a node sends for an envelope has one less of the ttl.
handle_inbound-IsOlder :
    (node : Node) (now instant : ℕ) (env : Envelope) (after : Node) (effects : List Effect)
    → handle_inbound node now instant env ≡ some (after, effects)
    → All (IsOlder env) (outgoing effects)
handle_inbound-IsOlder node now instant env after effects h =
    elim (handle_inbound_cases node now instant env after effects h) [
      | inl (same, nothing) ↦ rw nothing tt
      | inr (routed_node, a) ↦
          act-IsOlder (routed node now instant env) env
            (route_inbound node.router now instant env).1 effects a
    ]

abbrev pub Among : Envelope → List Envelope → Type 0
Among env [] = ⊥
Among env (e ∷ es) = (env ≡ e) ⊎ Among env es

-- The mesh as the list of the envelopes on the air, each for the one node that hears it there. In a
-- step some node handles one of them, and what it sends is heard `fan_out` times at most in all:
-- nodes, their states, the clocks and the order are arbitrary.
pub data Flood (fan_out : ℕ) : List Envelope → ℕ → List Envelope → Type 0 where
  quiet : (air : List Envelope) → Flood fan_out air 0 air
  hop :
      (before behind heard last : List Envelope) (n : ℕ) (node : Node) (now instant : ℕ)
      (env : Envelope) (after : Node) (effects : List Effect)
      → handle_inbound node now instant env ≡ some (after, effects)
      → All (λ e. Among e (outgoing effects)) heard
      → length heard ≤ fan_out
      → Flood fan_out (before ++ (behind ++ heard)) n last
      → Flood fan_out (before ++ env ∷ behind) (suc n) last

-- How many steps an envelope with this ttl can cause.
pub cost : ℕ → ℕ → ℕ
cost fan_out zero = 1
cost fan_out (suc ttl) = 1 + fan_out * cost fan_out ttl

pub total_cost : ℕ → List Envelope → ℕ
total_cost fan_out [] = 0
total_cost fan_out (env ∷ air) = cost fan_out env.ttl + total_cost fan_out air

total_cost-append :
    (d : ℕ) (xs ys : List Envelope) → total_cost d (xs ++ ys) ≡ total_cost d xs + total_cost d ys
unfolding total_cost
total_cost-append d [] ys = omega arith
total_cost-append d (x ∷ xs) ys = omega (arith, total_cost-append d xs ys)

All-Among :
    (P : Envelope → Type 0) (e : Envelope) (xs : List Envelope) → All P xs → Among e xs → P e
All-Among P e [] h m = absurd m
All-Among P e (x ∷ xs) h (inl same) = rw same h.0
All-Among P e (x ∷ xs) h (inr later) = All-Among P e xs h.1 later

total_cost-heard :
    (d t : ℕ) (env : Envelope) (heard : List Envelope)
    → env.ttl ≡ suc t
    → All (IsOlder env) heard
    → total_cost d heard ≡ length heard * cost d t
unfolding total_cost
total_cost-heard d t env [] e h = omega arith
total_cost-heard d t env (x ∷ heard) e h =
    let ttl : x.ttl ≡ t = omega (arith, h.0, e) in
    rw (ttl, total_cost-heard d t env heard e h.1) (grind arith)

mul_le : (m n k : ℕ) → m ≤ n → m * k ≤ n * k
mul_le m n k h = grind arith

-- What is heard of a handling costs less than what was handled.
total_cost-lt :
    (d ttl : ℕ) (env : Envelope) (heard : List Envelope)
    → env.ttl ≡ ttl
    → All (IsOlder env) heard
    → length heard ≤ d
    → total_cost d heard < cost d ttl
unfolding cost
total_cost-lt d zero env [] e h l = unfold total_cost in omega arith
total_cost-lt d zero env (x ∷ heard) e h l = absurd (omega (arith, h.0, e))
total_cost-lt d (suc t) env heard e h l =
    omega (arith, total_cost-heard d t env heard e h, mul_le (length heard) d (cost d t) l)

All-IsOlder :
    (env : Envelope) (out heard : List Envelope)
    → All (IsOlder env) out
    → All (λ e. Among e out) heard
    → All (IsOlder env) heard
All-IsOlder env out [] h m = tt
All-IsOlder env out (x ∷ heard) h m =
    (All-Among (IsOlder env) x out h m.0, All-IsOlder env out heard h m.1)

-- A flood ends: however the nodes are wired, whatever states they are in and whatever their clocks
-- say, the number of steps that the envelopes on the air cause and the cost of what is then left are
-- at most the cost of those envelopes, by their ttl and the fan-out alone.
pub total_cost-Flood :
    {fan_out n : ℕ} {air last : List Envelope}
    → Flood fan_out air n last
    → n + total_cost fan_out last ≤ total_cost fan_out air
unfolding total_cost
total_cost-Flood (quiet air) = omega arith
total_cost-Flood {fan_out}
      (hop before behind heard last n node now instant env after effects h m l rest) =
    let older = handle_inbound-IsOlder node now instant env after effects h in
    let less =
      total_cost-lt fan_out env.ttl env heard refl
        (All-IsOlder env (outgoing effects) heard older m) l in
    omega (
      arith,
      total_cost-Flood rest,
      total_cost-append fan_out before (behind ++ heard),
      total_cost-append fan_out behind heard,
      total_cost-append fan_out before (env ∷ behind),
      less,
    )
