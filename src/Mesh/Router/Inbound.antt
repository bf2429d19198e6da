-- ===== src/Mesh/Router/Inbound.antt =====
-- aegis-mesh/crates/aegis-core/src/mesh/router.rs: the decisions of `route_inbound`, and the
-- duplicate filter over a history of the table.
use aegis_mesh.Base.{
  ℕ, ◌+◌, ◌≤◌, ◌<◌, ◌≡◌, ◌≢◌, refl, ap, ◌↔◌, ◌⊎◌, inl, inr, Bool, true, false, Option, none, some,
  arith, ltb, lt→ltb, leb, not, ◌&&◌, Bool-cases, Option-cases, ◌==◌, ==_iff, nat_eq, list_eq,
  if◌then◌else◌,
}
use aegis_mesh.Crypto.IdentityId.{IdentityId}
use aegis_mesh.Error.{Result, ok, err}
use aegis_mesh.Messaging.Envelope.{Envelope, is_fresh, u64_mod}
use aegis_mesh.Messaging.Envelope.Fresh.{is_fresh_iff}
use aegis_mesh.Messaging.Envelope.Kind.{channel, broadcast, peer_discovery, route_announce}
use aegis_mesh.Mesh.Router.Tables.{seen_at, check_and_record_lem}
use aegis_mesh.Mesh.Router.{
  Router, RouteDecision, deliver, deliver_and_relay, relay, drop, for_us, should_relay, decide,
  route_inbound, check_and_record, max_age_ns, max_skew_ns,
}

abbrev pub IsForUs : Router → Envelope → Type 0
IsForUs router env = (env.recipient ≡ none) ⊎ (env.recipient ≡ some router.our_id)

-- The kinds that a node delivers and passes on.
abbrev pub Floods : Envelope → Type 0
Floods env =
    (env.kind ≡ channel)
    ⊎ (env.kind ≡ broadcast)
    ⊎ (env.kind ≡ peer_discovery)
    ⊎ (env.kind ≡ route_announce)

abbrev pub is_delivered : RouteDecision → Bool
is_delivered deliver = true
is_delivered deliver_and_relay = true
is_delivered _ = false

abbrev pub is_relayed : RouteDecision → Bool
is_relayed relay = true
is_relayed deliver_and_relay = true
is_relayed _ = false

addressed_iff :
    (o : Option IdentityId) (me : IdentityId)
    → ((elim o [ none ↦ true | some r ↦ r == me ]) ≡ true) ↔ ((o ≡ none) ⊎ (o ≡ some me))
addressed_iff none me = ((λ h. inl refl), (λ h. refl))
addressed_iff (some r) me =
    ((λ h. inr (ap some ((==_iff r me).0 h))), (λ h. ground (arith, ==_iff r me)))

for_us_iff : (router : Router) (env : Envelope) → (for_us router env ≡ true) ↔ IsForUs router env
unfolding for_us
for_us_iff router env = addressed_iff env.recipient router.our_id

should_relay_iff : (env : Envelope) → (should_relay env.kind ≡ true) ↔ Floods env
unfolding should_relay
should_relay_iff env = ground arith

-- The guards before the duplicate filter.
pub record IsAdmissible (router : Router) (now : ℕ) (env : Envelope) : Type 0 where
  pub near : env.hops ≤ router.max_hops
  pub alive : (0 < env.ttl) ⊎ (env.hops ≡ 0)
  pub not_future : env.timestamp_ns ≤ now + max_skew_ns
  pub not_old : now ≤ env.timestamp_ns + max_age_ns

admits : Router → ℕ → Envelope → Bool
admits router now env =
    leb env.hops router.max_hops
    && (not (env.ttl == 0 && ltb 0 env.hops) && is_fresh now env max_age_ns max_skew_ns)

admits_iff :
    (router : Router) (now : ℕ) (env : Envelope)
    → now + max_skew_ns + max_age_ns < u64_mod
    → (admits router now env ≡ true) ↔ IsAdmissible router now env
unfolding admits
admits_iff router now env h = ground (arith, is_fresh_iff now env max_age_ns max_skew_ns h)

module _ (router : Router) (now instant : ℕ) (env : Envelope) where
  route_inbound_refused :
      admits router now env ≡ false → route_inbound router now instant env ≡ (router, ok drop)
  unfolding admits route_inbound
  route_inbound_refused h = ground arith

  route_inbound_admitted :
      admits router now env ≡ true
      → route_inbound router now instant env ≡ (
        record router { table = (check_and_record router.table instant env.id).0 },
        (if (check_and_record router.table instant env.id).1
            then ok (decide router env)
            else ok drop),
      )
  unfolding admits route_inbound
  route_inbound_admitted h = ground arith

abbrev choice : Bool → Bool → ℕ → RouteDecision
choice f s ttl =
    if f
    then (if s && ltb 0 ttl then deliver_and_relay else deliver)
    else (if ltb 0 ttl then relay else drop)

choice-is_delivered :
    {A : Type 0} (f s : Bool) (ttl : ℕ)
    → (f ≡ true) ↔ A
    → (is_delivered (choice f s ttl) ≡ true) ↔ A
choice-is_delivered true s ttl fa = ((λ _. fa.0 refl), (λ _. ground arith))
choice-is_delivered false s ttl fa = ((λ h. absurd (ground arith)), (λ a. absurd (cc (fa.1 a))))

choice-is_relayed :
    {A B : Type 0} (f s : Bool) (ttl : ℕ)
    → (f ≡ true) ↔ A
    → (s ≡ true) ↔ B
    → (is_relayed (choice f s ttl) ≡ true) ↔ ((0 < ttl) × ((¬ A) ⊎ B))
choice-is_relayed true true ttl fa sb =
    ((λ h. (ground arith, inr (sb.0 refl))), (λ h. ground arith))
choice-is_relayed true false ttl fa sb = (
  (λ h. absurd (ground arith)),
  (λ (_, h). elim h [ inl na ↦ absurd (na (fa.0 refl)) | inr b ↦ absurd (cc (sb.1 b)) ]),
)
choice-is_relayed false s ttl fa sb =
    ((λ h. (ground arith, inl (λ a. cc (fa.1 a)))), (λ (lt, _). rw (lt→ltb 0 ttl lt) refl))

-- An envelope that is decided on is delivered exactly when it is for us, and passed on exactly when
-- its ttl is not used up and it is for someone else or of a kind that floods.
decide_lem :
    (router : Router) (env : Envelope)
    → ((is_delivered (decide router env) ≡ true) ↔ IsForUs router env)
      × ((is_relayed (decide router env) ≡ true)
          ↔ ((0 < env.ttl) × ((¬ IsForUs router env) ⊎ Floods env)))
unfolding decide
decide_lem router env = (
  choice-is_delivered (for_us router env) (should_relay env.kind) env.ttl (for_us_iff router env),
  choice-is_relayed (for_us router env) (should_relay env.kind) env.ttl (for_us_iff router env)
      (should_relay_iff env),
)

-- The decision, whether it delivers and whether it passes on; `route_inbound` has no error.
abbrev decision : Result RouteDecision → RouteDecision
decision (ok d) = d
decision (err e) = drop

pub route_inbound_steps :
    (router : Router) (now instant : ℕ) (env : Envelope)
    → now + max_skew_ns + max_age_ns < u64_mod
    → let (after, result) = route_inbound router now instant env in
      ((¬ IsAdmissible router now env) → (after ≡ router) × (result ≡ ok drop))
      × (IsAdmissible router now env
          → after.table ≡ (check_and_record router.table instant env.id).0)
      × (IsAdmissible router now env → seen_at router.table env.id ≢ none → result ≡ ok drop)
      × (IsAdmissible router now env
          → seen_at router.table env.id ≡ none
          → (result ≡ ok (decide router env))
            × ((is_delivered (decide router env) ≡ true) ↔ IsForUs router env)
            × ((is_relayed (decide router env) ≡ true)
                ↔ ((0 < env.ttl) × ((¬ IsForUs router env) ⊎ Floods env))))
route_inbound_steps router now instant env far = (
  (λ no_entry. elim (Bool-cases (admits router now env)) [
    | inl yes' ↦ absurd (no_entry (iff.0 yes'))
    | inr no' ↦ rw (route_inbound_refused router now instant env no') (refl, refl)
  ]),
  (λ entry. rw (admitted entry)),
  (λ entry known. elim (Bool-cases (check_and_record router.table instant env.id).1) [
    | inl first ↦ absurd (known (recorded.0 first))
    | inr again ↦ rw (admitted entry, again)
  ]),
  (λ entry unknown.
      let l = decide_lem router env in (rw (admitted entry, recorded.1 unknown), l.0, l.1)),
)
  where
    iff : (admits router now env ≡ true) ↔ IsAdmissible router now env
    iff = admits_iff router now env far

    recorded :
        ((check_and_record router.table instant env.id).1 ≡ true)
        ↔ (seen_at router.table env.id ≡ none)
    recorded = check_and_record_lem router.table instant env.id

    admitted :
        IsAdmissible router now env
        → route_inbound router now instant env ≡ (
          record router { table = (check_and_record router.table instant env.id).0 },
          (if (check_and_record router.table instant env.id).1
              then ok (decide router env)
              else ok drop),
        )
    admitted entry = route_inbound_admitted router now instant env (iff.1 entry)

-- With the clock far from the end of `u64`: an envelope that fails a guard is dropped and leaves
-- the router as it was, duplicate filter included; one that passes is recorded; a duplicate is
-- dropped; and the first of its identifier is delivered exactly when it is for us, and passed on
-- exactly when its ttl is not used up and it is for someone else or of a kind that floods.
pub route_inbound_lem :
    (router : Router) (now instant : ℕ) (env : Envelope)
    → now + max_skew_ns + max_age_ns < u64_mod
    → ((¬ IsAdmissible router now env) × (route_inbound router now instant env ≡ (router, ok drop)))
      ⊎ (IsAdmissible router now env
          × ((route_inbound router now instant env).0.table
              ≡ (check_and_record router.table instant env.id).0)
          × (((seen_at router.table env.id ≢ none)
                × ((route_inbound router now instant env).1 ≡ ok drop))
              ⊎ ((seen_at router.table env.id ≡ none)
                  × ((route_inbound router now instant env).1 ≡ ok (decide router env))
                  × ((is_delivered (decide router env) ≡ true) ↔ IsForUs router env)
                  × ((is_relayed (decide router env) ≡ true)
                      ↔ ((0 < env.ttl) × ((¬ IsForUs router env) ⊎ Floods env))))))
route_inbound_lem router now instant env far =
    let iff = admits_iff router now env far in
    let (refused, tables, known, fresh) = route_inbound_steps router now instant env far in
    elim (Bool-cases (admits router now env)) [
      | inr no_entry ↦
          inl ((λ a. cc (iff.1 a)), route_inbound_refused router now instant env no_entry)
      | inl entry ↦
          let a = iff.0 entry in
          inr (
            a,
            tables a,
            elim (Option-cases (seen_at router.table env.id)) [
              | inl none_seen ↦
                  let (decided, delivers, relays) = fresh a none_seen in
                  inr (none_seen, decided, delivers, relays)
              | inr (at, seen) ↦
                  let twice : seen_at router.table env.id ≢ none = λ e. cc in
                  inl (twice, known a twice)
            ],
          )
    ]
