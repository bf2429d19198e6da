-- ===== src/Mesh/Tests/Peer.antt =====
-- The theorems on aegis-mesh/crates/aegis-core/src/mesh/peer.rs at concrete values.
use aegis_mesh.Base.{
  ◌≡◌, ◌≢◌, refl, true, false, none, some, List, [], ◌∷◌, arith, nat_eq, list_eq, ◌==◌, ==_iff,
}
use aegis_mesh.Base.Map
use aegis_mesh.Base.Text.{codes}
use aegis_mesh.Crypto.IdentityId.{IdentityId}
use aegis_mesh.Mesh.Peer.{
  PublicIdentity, Peer, PeerRegistry, offline, blocked, admit, record_peer, get,
}
use aegis_mesh.Mesh.Peer.Invariant.{record_one, refresh_all, run, IsRegistry, run-IsRegistry}
use aegis_mesh.Mesh.Peer.Blocked.{IsBlocked, run-IsBlocked}
use aegis_mesh.Samples.{alice, bob, carol}

abbrev identity_of : IdentityId → PublicIdentity
identity_of id = record { id = id; display_name = codes "peer"; verifying_key = [] }

abbrev bob_peer : Peer
bob_peer = record {
  identity = identity_of bob;
  last_seen_ns = 50;
  state = blocked;
  rssi = none;
  last_transport = none;
  verified = true;
}

abbrev carol_peer : Peer
carol_peer = record bob_peer { identity = identity_of carol; last_seen_ns = 20; state = offline }

-- A full registry: Bob is blocked, and Carol is offline.
abbrev two : PeerRegistry
two = record {
  peers = (bob, bob_peer) ∷ (carol, carol_peer) ∷ [];
  observe_times = [];
  stale_threshold = 300_000_000_000;
  offline_threshold = 1_800_000_000_000;
  max_peers = 2;
}

two-IsRegistry : IsRegistry two
unfolding Map.get
two-IsRegistry = record { peers = (refl, (refl, tt)); times = tt; bounded = omega arith }

run-IsRegistry_example :
    IsRegistry (run (record_one 99 (identity_of alice) none (codes "ble") ∷ []) two)
run-IsRegistry_example =
    run-IsRegistry (record_one 99 (identity_of alice) none (codes "ble") ∷ []) two two-IsRegistry

bob-IsBlocked : IsBlocked two bob
unfolding Map.get
bob-IsBlocked = refl

run-IsBlocked_example :
    IsBlocked
      (run
        (record_one 99 (identity_of alice) none (codes "ble")
          ∷ record_one 99 (identity_of bob) none (codes "ble")
          ∷ refresh_all (λ id. 99)
          ∷ [])
        two)
      bob
run-IsBlocked_example =
    run-IsBlocked
      (record_one 99 (identity_of alice) none (codes "ble")
        ∷ record_one 99 (identity_of bob) none (codes "ble")
        ∷ refresh_all (λ id. 99)
        ∷ [])
      two bob two-IsRegistry (tt, (tt, (tt, tt))) bob-IsBlocked

abbrev after_alice : List (IdentityId × Peer)
after_alice = record_peer two.peers 2 99 (identity_of alice) none (codes "ble")

apart : (x y : IdentityId) → (x == y) ≡ false → x ≢ y
apart x y h e = cc ((==_iff x y).1 e)

admits_alice : (admit two.observe_times 10 alice).1 ≡ true
unfolding admit Map.get
admits_alice = refl

get-carol : get two carol ≡ some carol_peer
unfolding get Map.get
get-carol = refl
