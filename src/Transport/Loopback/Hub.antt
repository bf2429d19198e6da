-- ===== src/Transport/Loopback/Hub.antt =====
-- aegis-mesh/crates/aegis-core/src/transport/loopback.rs: a hub from its start to its stop, with its
-- accepting tasks, the clients whose tasks have not run yet, and the list of the writers of the
-- others. What stands at the path of the socket, what the operating system answers and what
-- `tokio::select!` takes are arguments. A start waits for the lock that an accepting task holds while
-- it listens, so it is the start of a transport that is not listening.
use aegis_mesh.Base.{
  ℕ, ◌+◌, ◌-◌, Bool, true, false, not, ◌&&◌, List, [], ◌∷◌, ◌++◌, filter, contains, ◌==◌, nat_eq,
  if◌then◌else◌,
}
use aegis_mesh.Base.Text.{Bytes}
use aegis_mesh.Error.{Result, ok, err, invalid, io}
use aegis_mesh.Messaging.Envelope.{Envelope}
use aegis_mesh.Messaging.Envelope.Wire.{Codec}
use aegis_mesh.Transport.Loopback.{broadcast}

pub record LoopbackTransport : Type 0 where
  pub write_halfs : List ℕ
  pub is_cancelled : Bool
  pub is_listening : Bool
  -- how many accepting tasks run
  pub accepting : ℕ
  -- the clients that were accepted and whose tasks have not stored their writers
  pub spawned : List ℕ
  -- the number of the next connection
  pub next : ℕ

unfoldable pub new : LoopbackTransport
new = record {
  write_halfs = [];
  is_cancelled = false;
  is_listening = false;
  accepting = 0;
  spawned = [];
  next = 0;
}

-- The answers to a start: whether a symbolic link stands at the path, whether the directory can be
-- made, and whether the socket can be bound.
pub record StartAnswers : Type 0 where
  pub is_symlink : Bool
  pub has_directory : Bool
  pub is_bound : Bool

unfoldable pub start : StartAnswers → LoopbackTransport → LoopbackTransport × Result (Unit {0})
start a hub =
    if a.is_symlink
    then (hub, err invalid)
    else if not a.has_directory
    then (hub, err io)
    else if not a.is_bound
    then (hub, err io)
    else (record hub { is_listening = true; accepting = hub.accepting + 1 }, ok tt)

-- One turn of an accepting task. `is_cancel_first` says whether the macro, which looks at its two
-- branches in a random order, takes the cancelled token where a client waits as well; `is_accepted`
-- says whether the operating system hands the client on.
unfoldable pub accept : Bool → Bool → LoopbackTransport → LoopbackTransport
accept is_cancel_first is_accepted hub =
    if hub.accepting == 0
    then hub
    else if hub.is_cancelled && is_cancel_first
    then record hub { accepting = hub.accepting - 1 }
    else if not hub.is_listening
    then record hub { accepting = hub.accepting - 1 }
    else if not is_accepted
    then record hub { accepting = hub.accepting - 1 }
    else record hub { spawned = hub.spawned ++ hub.next ∷ []; next = hub.next + 1 }

-- The task of a client begins: it stores its writer, also where the hub was stopped meanwhile.
unfoldable pub begin_client : ℕ → LoopbackTransport → LoopbackTransport
begin_client client hub =
    if contains hub.spawned client
    then record hub {
      spawned = filter (λ c. not (c == client)) hub.spawned;
      write_halfs = hub.write_halfs ++ client ∷ [];
    }
    else hub

unfoldable pub stop : LoopbackTransport → LoopbackTransport
stop hub = record hub { is_cancelled = true; is_listening = false; write_halfs = [] }

module _ (codec : Codec) where
  unfoldable pub send :
      (ℕ → Bytes → Bool) → Envelope → LoopbackTransport → LoopbackTransport × Result Bool
  send written env hub =
      let (write_halfs, reply) = broadcast codec written hub.write_halfs env in
      (record hub { write_halfs = write_halfs }, reply)
