-- ===== src/Mesh/Router/Replay.antt =====
-- aegis-mesh/crates/aegis-core/src/mesh/router.rs: the duplicate filter over a history of the
-- router.
use aegis_mesh.Base.{
  ℕ, ◌+◌, ◌-◌, ◌≤◌, ◌<◌, ◌≡◌, ◌≢◌, ◌⊎◌, inl, inr, refl, ◌∙◌, true, none, some, List, [], ◌∷◌, All,
  arith, lt→ltb, ge→ltb, ==_refl, nat_eq, list_eq,
}
use aegis_mesh.Base.Map.{contains_key-get}
use aegis_mesh.Crypto.IdentityId.{IdentityId}
use aegis_mesh.Error.{ok}
use aegis_mesh.Messaging.Envelope.{Envelope, u64_mod}
use aegis_mesh.Messaging.Envelope.Id.{EnvelopeId}
use aegis_mesh.Mesh.Router.Inbound.{IsAdmissible, IsForUs, is_delivered, route_inbound_steps}
use aegis_mesh.Mesh.Router.Tables.{
  IsTable, seen_at, seen_at-check_and_record, seen_at-gc_seen, check_and_record_lem, update-IsTable,
  remove-IsTable, remove_routes_via-IsTable, check_and_record-IsTable, gc_seen-IsTable,
}
use aegis_mesh.Mesh.Router.{
  Router, RouteEntry, RouteTable, drop, decide, update, remove, remove_routes_via, gc_seen,
  check_and_record, route_inbound, max_skew_ns, max_age_ns,
}

-- The calls that change the router: `learn`, `forget` and `cut` are those of its route table.
pub data Event : Type 0 where
  inbound : ℕ → ℕ → Envelope → Event
  learn : IdentityId → RouteEntry → Event
  forget : IdentityId → Event
  cut : IdentityId → Event
  collect : ℕ → Event

unfoldable pub step : Router → Event → Router
step r (inbound now instant env) = (route_inbound r now instant env).0
step r (learn d e) = record r { table = (update r.table d e).0 }
step r (forget d) = record r { table = remove r.table d }
step r (cut via) = record r { table = remove_routes_via r.table via }
step r (collect now) = record r { table = gc_seen r.table now }

pub run : Router → List Event → Router
run r [] = r
run r (e ∷ es) = run (step r e) es

-- Every collection comes before this instant.
abbrev pub CollectsBefore : ℕ → Event → Type 0
CollectsBefore limit (collect now) = now < limit
CollectsBefore limit (inbound now instant env) = Unit
CollectsBefore limit (learn d e) = Unit
CollectsBefore limit (forget d) = Unit
CollectsBefore limit (cut via) = Unit

pub record Remembers (id : EnvelopeId) (at life : ℕ) (r : Router) : Type 0 where
  pub recorded : seen_at r.table id ≡ some at
  pub lifetime : r.table.seen_ttl ≡ life
  pub table : IsTable r.table

route_inbound-table :
    (r : Router) (now instant : ℕ) (env : Envelope)
    → ((route_inbound r now instant env).0 ≡ r)
      ⊎ ((route_inbound r now instant env).0
          ≡ record r { table = (check_and_record r.table instant env.id).0 })
unfolding route_inbound
route_inbound-table r now instant env = ground arith

seen_ttl-check_and_record :
    (t : RouteTable) (instant : ℕ) (j : EnvelopeId)
    → (check_and_record t instant j).0.seen_ttl ≡ t.seen_ttl
unfolding check_and_record
seen_ttl-check_and_record t instant j = ground arith

seen-update :
    (t : RouteTable) (d : IdentityId) (e : RouteEntry)
    → (update t d e).0.seen_messages ≡ t.seen_messages
unfolding update
seen-update t d e = ground arith

seen_ttl-update :
    (t : RouteTable) (d : IdentityId) (e : RouteEntry) → (update t d e).0.seen_ttl ≡ t.seen_ttl
unfolding update
seen_ttl-update t d e = ground arith

check_and_record-Remembers :
    (id : EnvelopeId) (at life : ℕ) (r : Router) (instant : ℕ) (j : EnvelopeId)
    → Remembers id at life r
    → Remembers id at life (record r { table = (check_and_record r.table instant j).0 })
check_and_record-Remembers id at life r instant j m = record {
  recorded = rw (seen_at-check_and_record r.table instant j id, m.recorded) refl;
  lifetime = seen_ttl-check_and_record r.table instant j ∙ m.lifetime;
  table = check_and_record-IsTable r.table instant j m.table;
}

pub step-Remembers :
    (id : EnvelopeId) (at life : ℕ) (r : Router) (e : Event)
    → 0 < life
    → CollectsBefore (at + life) e
    → Remembers id at life r
    → Remembers id at life (step r e)
unfolding step
step-Remembers id at life r (inbound now instant env) z h m =
    elim (route_inbound-table r now instant env) [
      | inl same ↦ rw same m
      | inr new ↦ rw new (check_and_record-Remembers id at life r instant env.id m)
    ]
step-Remembers id at life r (learn d e) z h m = record {
  recorded = rw (seen-update r.table d e) m.recorded;
  lifetime = seen_ttl-update r.table d e ∙ m.lifetime;
  table = update-IsTable r.table d e m.table;
}
step-Remembers id at life r (forget d) z h m = record {
  recorded = unfold remove in m.recorded;
  lifetime = unfold remove in m.lifetime;
  table = remove-IsTable r.table d m.table;
}
step-Remembers id at life r (cut via) z h m = record {
  recorded = unfold remove_routes_via in m.recorded;
  lifetime = unfold remove_routes_via in m.lifetime;
  table = remove_routes_via-IsTable r.table via m.table;
}
step-Remembers id at life r (collect now) z h m = record {
  recorded =
      rw (seen_at-gc_seen r.table now id m.table, m.recorded)
        (rw (lt→ltb (now - at) r.table.seen_ttl (omega (arith, m.lifetime, h))) refl);
  lifetime = unfold gc_seen in m.lifetime;
  table = gc_seen-IsTable r.table now m.table;
}

run-Remembers :
    (id : EnvelopeId) (at life : ℕ)
    → 0 < life
    → (r : Router) (es : List Event) → All (CollectsBefore (at + life)) es
    → Remembers id at life r
    → Remembers id at life (run r es)
unfolding run
run-Remembers id at life z r [] h m = m
run-Remembers id at life z r (e ∷ es) h m =
    run-Remembers id at life z (step r e) es h.1 (step-Remembers id at life r e z h.0 m)

route_inbound_first :
    (r : Router) (now instant : ℕ) (env : Envelope)
    → (route_inbound r now instant env).1 ≢ ok drop
    → ((route_inbound r now instant env).0
        ≡ record r { table = (check_and_record r.table instant env.id).0 })
      × ((check_and_record r.table instant env.id).1 ≡ true)
unfolding route_inbound
route_inbound_first r now instant env passed = ground arith

-- Whatever was not dropped was recorded.
pub route_inbound-Remembers :
    (r : Router) (now instant : ℕ) (env : Envelope)
    → IsTable r.table
    → (route_inbound r now instant env).1 ≢ ok drop
    → Remembers env.id instant r.table.seen_ttl (route_inbound r now instant env).0
route_inbound-Remembers r now instant env i passed =
    let (after, first) = route_inbound_first r now instant env passed in
    rw after (record {
      recorded =
          rw
            (
              seen_at-check_and_record r.table instant env.id env.id,
              (check_and_record_lem r.table instant env.id).0 first,
            )
            (rw (==_refl env.id) refl);
      lifetime = seen_ttl-check_and_record r.table instant env.id;
      table = check_and_record-IsTable r.table instant env.id i;
    })

pub route_inbound_known :
    (r : Router) (now instant at : ℕ) (env : Envelope)
    → seen_at r.table env.id ≡ some at
    → (route_inbound r now instant env).1 ≡ ok drop
unfolding route_inbound check_and_record
route_inbound_known r now instant at env h =
    ground (arith, contains_key-get r.table.seen_messages env.id)

-- An envelope that was not dropped is dropped whenever its identifier comes again, whatever the
-- router did in between, as long as each collection of the duplicate filter in between came less
-- than `seen_ttl` after the first arrival.
pub route_inbound_once :
    (r : Router) (now instant : ℕ) (env : Envelope) (es : List Event) (later at : ℕ)
    (again : Envelope)
    → IsTable r.table
    → 0 < r.table.seen_ttl
    → (route_inbound r now instant env).1 ≢ ok drop
    → All (CollectsBefore (instant + r.table.seen_ttl)) es
    → again.id ≡ env.id
    → (route_inbound (run (route_inbound r now instant env).0 es) later at again).1 ≡ ok drop
route_inbound_once r now instant env es later at again i alive passed early same =
    let m =
      run-Remembers env.id instant r.table.seen_ttl alive (route_inbound r now instant env).0 es
        early (route_inbound-Remembers r now instant env i passed) in
    route_inbound_known _ later at instant again (rw same m.recorded)

-- The filter forgets sooner than the time stamps grow old. Once `seen_ttl` has passed since an
-- envelope for this node was recorded, a collection makes room for it: as long as it is admissible
-- by its time stamp, for ten minutes, the same envelope is delivered again.
pub route_inbound_again :
    (r : Router) (env : Envelope) (first collected now instant : ℕ)
    → IsTable r.table
    → seen_at r.table env.id ≡ some first
    → first + r.table.seen_ttl ≤ collected
    → IsAdmissible r now env
    → IsForUs r env
    → now + max_skew_ns + max_age_ns < u64_mod
    → let s = step r (collect collected) in
      ((route_inbound s now instant env).1 ≡ ok (decide s env))
      × (is_delivered (decide s env) ≡ true)
unfolding step
route_inbound_again r env first collected now instant i old late entry us far =
    let s = record r { table = gc_seen r.table collected } in
    let l = route_inbound_steps s now instant env far in
    let l' = l.3 entry' forgotten in (l'.0, l'.1.1 us)
  where
    forgotten : seen_at (gc_seen r.table collected) env.id ≡ none
    forgotten =
        rw (seen_at-gc_seen r.table collected env.id i, old)
          (rw (ge→ltb (collected - first) r.table.seen_ttl (omega arith)) refl)

    entry' : IsAdmissible (record r { table = gc_seen r.table collected }) now env
    entry' = record {
      near = entry.near;
      alive = entry.alive;
      not_future = entry.not_future;
      not_old = entry.not_old;
    }
