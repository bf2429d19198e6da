-- ===== src/Cli/Tests.antt =====
-- The theorems on aegis-mesh/crates/aegis-cli/src/commands/serve.rs at concrete values.
use aegis_mesh.Base.{
  ℕ, ◌+◌, ◌≤◌, ◌≡◌, refl, ap, inl, inr, Option, none, some, [], ◌∷◌, ◌++◌, arith, replicate,
}
use aegis_mesh.Base.Map
use aegis_mesh.Base.Text.{Text, all_hexdigits, is_ascii_hexdigit}
use aegis_mesh.Messaging.Envelope.{Envelope, advance_ttl, is_fresh}
use aegis_mesh.Messaging.Envelope.Flags.{has_reserved}
use aegis_mesh.Messaging.Envelope.Validate.{validate, is_consistent, is_sized}
use aegis_mesh.Mesh.Peer
use aegis_mesh.Mesh.Router
use aegis_mesh.Mesh.Router.{
  forward_targets, route_inbound, check_and_record, decide, for_us, should_relay,
}
use aegis_mesh.Mesh.Router.Inbound.{IsAdmissible}
use aegis_mesh.Mesh.Router.Tables.{IsTable}
use aegis_mesh.Mesh.StoreForward
use aegis_mesh.Samples.{bob, carol, message, plain_ed25519, table_codec}
use aegis_mesh.Cli.Serve
use aegis_mesh.Cli.Serve.{
  Node, Effect, printed, sent, display, send_all, relay_env, act, handle_inbound, Event, received,
  announced, collected, run, step, is_char_boundary,
}
use aegis_mesh.Cli.Serve.Display.{handle_inbound-panics}
use aegis_mesh.Cli.Serve.Flood.{Flood, hop, quiet, total_cost, total_cost-Flood}
use aegis_mesh.Cli.Serve.Idle.{run-new}
use aegis_mesh.Cli.Serve.Passage.{Hop, IsRelay, Carries, handle_inbound-Carries}
use aegis_mesh.Cli.Serve.Replay.{handle_inbound_once}

-- Bob with two transports.
abbrev bob_node : Node
bob_node = Serve.new bob (7 ∷ []) (8 ∷ []) 2

-- A second after the message was sent.
abbrev soon : ℕ
soon = 1_001_000_000_000

-- The same message to Carol, which Bob passes on.
abbrev to_carol : Envelope
to_carol = record message { recipient = some carol }

abbrev bob_after : Node
bob_after = record bob_node { router = (route_inbound bob_node.router soon 5 message).0 }

bob_reads :
    handle_inbound bob_node soon 5 message
    ≡ some (bob_after, printed (replicate 8 b'a') (104 ∷ 105 ∷ []) ∷ [])
unfolding handle_inbound act display is_char_boundary Serve.new Router.new Router.new_table
    route_inbound check_and_record decide for_us should_relay is_fresh Map.contains_key
bob_reads = refl

bob_node-IsTable : IsTable bob_node.router.table
unfolding Serve.new Router.new Router.new_table
bob_node-IsTable = record { routes = tt; seen = tt }

-- Bob reads the message, collects, and gets the message again.
handle_inbound_once_example :
    (last : Node) × (handle_inbound bob_after soon 9 message ≡ some (last, []))
unfolding Serve.new Router.new Router.new_table
handle_inbound_once_example =
    handle_inbound_once (table_codec []) plain_ed25519 bob_node bob_after bob_after soon 5 soon 9
      message message (printed (replicate 8 b'a') (104 ∷ 105 ∷ []) ∷ []) [] [] bob_node-IsTable
      (omega arith) bob_reads (λ e. cc) nothing_between tt refl
  where
    nothing_between : run (table_codec []) plain_ed25519 bob_after [] ≡ some (bob_after, [])
    nothing_between = unfold run in refl

-- The euro sign across the boundary: seven letters, its three bytes, and letters again.
abbrev broken : Envelope
broken = record message { sender = replicate 7 b'a' ++ (0xE2 ∷ 0x82 ∷ 0xAC ∷ replicate 54 b'a') }

abbrev first_byte : Text → ℕ
first_byte [] = 0
first_byte (b ∷ s) = b

broken-IsAdmissible : IsAdmissible bob_node.router soon broken
unfolding Serve.new Router.new
broken-IsAdmissible = record {
  near = omega arith;
  alive = inl (omega arith);
  not_future = omega arith;
  not_old = omega arith;
}

handle_inbound-panics_example : handle_inbound bob_node soon 5 broken ≡ none
unfolding Serve.new Router.new Router.new_table Map.get validate is_consistent is_sized has_reserved
    is_char_boundary
handle_inbound-panics_example =
    handle_inbound-panics bob_node soon 5 broken (104 ∷ 105 ∷ []) broken-IsAdmissible (inr refl)
      refl (omega arith) (λ e. omega (arith, ap first_byte e)) refl refl refl

bob_run :
    run (table_codec []) plain_ed25519 bob_node (received soon 5 message ∷ [])
    ≡ some (bob_after, printed (replicate 8 b'a') (104 ∷ 105 ∷ []) ∷ [])
unfolding run step
bob_run = rw (bob_reads, run) refl

run-new_example :
    (bob_after.peers ≡ Peer.new)
    × (bob_after.store_forward ≡ StoreForward.new)
    × (bob_after.router.table.routes ≡ [])
    × ((env : Envelope)
        → forward_targets bob_after.router env (Peer.neighbor_ids bob_after.peers) ≡ [])
run-new_example =
    run-new (table_codec []) plain_ed25519 bob (7 ∷ []) (8 ∷ []) 2 (received soon 5 message ∷ [])
      bob_after (printed (replicate 8 b'a') (104 ∷ 105 ∷ []) ∷ []) bob_run

-- Bob passes a message on to Carol over both of his transports.
abbrev passed : Envelope
passed = (advance_ttl to_carol 10).0

abbrev bob_relayed : Node
bob_relayed = record bob_node { router = (route_inbound bob_node.router soon 5 to_carol).0 }

bob_relays :
    handle_inbound bob_node soon 5 to_carol ≡ some (bob_relayed, sent 0 passed ∷ sent 1 passed ∷ [])
unfolding handle_inbound act relay_env send_all Serve.new Router.new Router.new_table route_inbound
    check_and_record decide for_us should_relay is_fresh Map.contains_key advance_ttl
bob_relays = refl

one_hop : Flood 2 (to_carol ∷ []) 1 (passed ∷ passed ∷ [])
one_hop =
    hop [] [] (passed ∷ passed ∷ []) (passed ∷ passed ∷ []) 0 bob_node soon 5 to_carol bob_relayed
      (sent 0 passed ∷ sent 1 passed ∷ []) bob_relays (inl refl, (inl refl, tt)) (omega arith)
      (quiet (passed ∷ passed ∷ []))

total_cost-Flood_example : 1 + total_cost 2 (passed ∷ passed ∷ []) ≤ total_cost 2 (to_carol ∷ [])
total_cost-Flood_example = total_cost-Flood one_hop

-- Bob's node, from which the node of Carol gets the message, two seconds after it was sent.
abbrev bob_hop : Hop
bob_hop = record { node = bob_node; now = soon; instant = 5 }

abbrev carol_node : Node
carol_node = Serve.new carol (9 ∷ []) (9 ∷ []) 1

abbrev first_of : Option Text → ℕ
first_of none = 0
first_of (some s) = first_byte s

bob_hop-IsRelay : IsRelay to_carol bob_hop
unfolding Serve.new Router.new Router.new_table Map.get
bob_hop-IsRelay = record {
  foreign = λ e. omega (arith, ap first_byte e);
  elsewhere = λ e. omega (arith, ap first_of e);
  unseen = refl;
  not_future = omega arith;
  not_old = omega arith;
  far = omega arith;
  limit = refl;
  wired = omega arith;
}

handle_inbound-Carries_example :
    (b : Envelope) × Carries (bob_hop ∷ []) to_carol b
    × ((after : Node) × (handle_inbound carol_node 1_002_000_000_000 7 b
          ≡ some (after, printed (replicate 8 b'a') (104 ∷ 105 ∷ []) ∷ [])))
unfolding Serve.new Router.new Router.new_table Map.get
handle_inbound-Carries_example =
    handle_inbound-Carries (bob_hop ∷ []) to_carol (104 ∷ 105 ∷ []) carol_node 1_002_000_000_000 7
      refl refl refl refl (unfold all_hexdigits is_ascii_hexdigit in refl) (bob_hop-IsRelay, tt)
      (omega arith) (omega arith) (λ e. omega (arith, ap first_byte e)) refl (omega arith)
      (omega arith) (omega arith) refl
