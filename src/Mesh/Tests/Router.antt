-- ===== src/Mesh/Tests/Router.antt =====
-- The theorems on aegis-mesh/crates/aegis-core/src/mesh/router.rs at concrete values.
use aegis_mesh.Base.{
  ℕ, ◌+◌, ◌≤◌, ◌<◌, ◌≡◌, ◌≢◌, ◌↔◌, ◌⊎◌, inl, inr, refl, Bool, true, false, none, some, [], ◌∷◌,
  arith, contains, nat_eq, list_eq, ◌==◌, ==_iff,
}
use aegis_mesh.Base.Map
use aegis_mesh.Crypto.IdentityId.{IdentityId}
use aegis_mesh.Error.{Result, ok, err, signature}
use aegis_mesh.Messaging.Envelope.{is_fresh}
use aegis_mesh.Mesh.Router.{
  Router, RouteEntry, RouteTable, update, get, check_and_record, should_relay, RouteDecision,
  deliver, route_inbound, drop, decide, for_us, announced, announce_bytes, process_route_announce,
  forward_targets, u64_max,
}
use aegis_mesh.Mesh.Router.Routes.{
  run_updates, run_updates-NoWorse, NoWorseOption, update_max_seq, IsFrozen,
}
use aegis_mesh.Mesh.Router.Tables.{IsTable, seen_at}
use aegis_mesh.Mesh.Router.Inbound.{
  IsAdmissible, IsForUs, Floods, is_delivered, is_relayed, route_inbound_lem,
}
use aegis_mesh.Mesh.Router.Replay.{
  inbound, collect, step, run, route_inbound_once, route_inbound_again,
}
use aegis_mesh.Mesh.Router.Announce.{IsAuthentic, process_route_announce_lem}
use aegis_mesh.Mesh.Router.Forward.{IsRoute, contains-forward_targets}
use aegis_mesh.Samples.{alice, bob, carol, message, message_id, plain_ed25519, plain_hash}

-- Bob's router, with a route to Carol through Alice.
abbrev via_alice : RouteEntry
via_alice = record { next_hop = alice; cost = 2; seq = 7; updated_ns = 0 }

abbrev bob_table : RouteTable
bob_table = record {
  routes = (carol, via_alice) ∷ [];
  seen_messages = [];
  seen_ttl = 300_000_000_000;
}

abbrev bob_router : Router
bob_router = record { our_id = bob; table = bob_table; max_hops = 10 }

bob_table-IsTable : IsTable bob_table
unfolding Map.get
bob_table-IsTable = record { routes = (refl, tt); seen = tt }

-- A second after the message was sent.
abbrev soon : ℕ
soon = 1_001_000_000_000

route_inbound_lem_example :
    ((¬ IsAdmissible bob_router soon message)
      × (route_inbound bob_router soon 5 message ≡ (bob_router, ok drop)))
    ⊎ (IsAdmissible bob_router soon message
        × ((route_inbound bob_router soon 5 message).0.table
            ≡ (check_and_record bob_router.table 5 message.id).0)
        × (((seen_at bob_router.table message.id ≢ none)
              × ((route_inbound bob_router soon 5 message).1 ≡ ok drop))
            ⊎ ((seen_at bob_router.table message.id ≡ none)
                × ((route_inbound bob_router soon 5 message).1 ≡ ok (decide bob_router message))
                × ((is_delivered (decide bob_router message) ≡ true) ↔ IsForUs bob_router message)
                × ((is_relayed (decide bob_router message) ≡ true)
                    ↔ ((0 < message.ttl) × ((¬ IsForUs bob_router message) ⊎ Floods message))))))
route_inbound_lem_example = route_inbound_lem bob_router soon 5 message (omega arith)

delivers : (route_inbound bob_router soon 5 message).1 ≡ ok deliver
unfolding route_inbound check_and_record decide for_us is_fresh should_relay Map.contains_key
delivers = refl

not_dropped : (r : Result RouteDecision) → r ≡ ok deliver → r ≢ ok drop
not_dropped r e f = cc

delivered : (route_inbound bob_router soon 5 message).1 ≢ ok drop
delivered = not_dropped (route_inbound bob_router soon 5 message).1 delivers

apart : (x y : IdentityId) → (x == y) ≡ false → x ≢ y
apart x y h e = cc ((==_iff x y).1 e)

route_inbound_once_example :
    (route_inbound
      (run (route_inbound bob_router soon 5 message).0 (inbound soon 6 message ∷ collect 7 ∷ []))
      soon
      8
      message).1
    ≡ ok drop
route_inbound_once_example =
    route_inbound_once bob_router soon 5 message (inbound soon 6 message ∷ collect 7 ∷ []) soon 8
      message bob_table-IsTable (omega arith) delivered (tt, (omega arith, tt)) refl

-- Bob's router that recorded the message at instant 5.
abbrev seen_router : Router
seen_router = record bob_router {
  table = record bob_table { seen_messages = (message_id, 5) ∷ [] };
}

seen_message : seen_at seen_router.table message.id ≡ some 5
unfolding Map.get
seen_message = refl

seen_router-IsTable : IsTable seen_router.table
unfolding Map.get
seen_router-IsTable = record { routes = (refl, tt); seen = (refl, tt) }

message-IsAdmissible : IsAdmissible seen_router soon message
message-IsAdmissible = record {
  near = omega arith;
  alive = inl (omega arith);
  not_future = omega arith;
  not_old = omega arith;
}

route_inbound_again_example :
    ((route_inbound (step seen_router (collect 300_000_000_005)) soon 9 message).1
      ≡ ok (decide (step seen_router (collect 300_000_000_005)) message))
    × (is_delivered (decide (step seen_router (collect 300_000_000_005)) message) ≡ true)
route_inbound_again_example =
    route_inbound_again seen_router message 5 300_000_000_005 soon 9 seen_router-IsTable
      seen_message (omega arith) message-IsAdmissible (inr refl) (omega arith)

abbrev newer : RouteEntry
newer = record { next_hop = bob; cost = 3; seq = 9; updated_ns = 0 }

run_updates-NoWorse_example :
    NoWorseOption (get bob_table carol) (get (run_updates bob_table ((carol, newer) ∷ [])) carol)
run_updates-NoWorse_example = run_updates-NoWorse bob_table ((carol, newer) ∷ []) carol

abbrev largest : RouteEntry
largest = record { next_hop = bob; cost = 200; seq = u64_max; updated_ns = 0 }

update_max_seq_example :
    ((update bob_table carol largest).1 ≡ true)
    × IsFrozen (get (run_updates (update bob_table carol largest).0 ((carol, newer) ∷ [])) carol)
unfolding get Map.get
update_max_seq_example =
    update_max_seq bob_table carol largest ((carol, newer) ∷ []) refl (λ old e. ground (arith, e))
      (omega arith, tt)

abbrev announce : ℕ → Router × Result Bool
announce hop_count =
    process_route_announce plain_ed25519 plain_hash bob_router soon carol carol hop_count 8 alice
      (plain_ed25519.sign carol (announce_bytes carol 3 8))

process_route_announce_lem_example :
    (((carol ≡ bob_router.our_id) ⊎ (255 ≤ 3)) × (announce 3 ≡ (bob_router, ok false)))
    ⊎ ((carol ≢ bob_router.our_id)
        × (3 < 255)
        × (¬ IsAuthentic plain_ed25519 plain_hash carol carol 3 8
            (plain_ed25519.sign carol (announce_bytes carol 3 8)))
        × (announce 3 ≡ (bob_router, err signature)))
    ⊎ ((carol ≢ bob_router.our_id)
        × (3 < 255)
        × IsAuthentic plain_ed25519 plain_hash carol carol 3 8
            (plain_ed25519.sign carol (announce_bytes carol 3 8))
        × (announce 3 ≡ (
          record bob_router {
            table = (update bob_router.table carol (announced soon 3 8 alice)).0;
          },
          ok (update bob_router.table carol (announced soon 3 8 alice)).1,
        ))
        × ((announced soon 3 8 alice).cost ≡ 3 + 1))
process_route_announce_lem_example =
    process_route_announce_lem plain_ed25519 plain_hash bob_router soon carol carol 3 8 alice
      (plain_ed25519.sign carol (announce_bytes carol 3 8))

contains-forward_targets_example :
    (contains
        (forward_targets bob_router
          (record message { recipient = some carol; sender = bob })
          (alice ∷ carol ∷ []))
        alice
      ≡ true)
    ↔ (IsRoute bob_router (record message { recipient = some carol; sender = bob }) alice
        ⊎ (((y : IdentityId)
              → ¬ IsRoute bob_router (record message { recipient = some carol; sender = bob }) y)
            × (contains (alice ∷ carol ∷ []) alice ≡ true)
            × (alice ≢ bob)))
contains-forward_targets_example =
    contains-forward_targets bob_router (record message { recipient = some carol; sender = bob })
      (alice ∷ carol ∷ []) alice
