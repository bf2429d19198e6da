-- ===== src/Mesh/StoreForward.antt =====
-- aegis-mesh/crates/aegis-core/src/mesh/store_forward.rs: the queue of messages that wait for
-- their recipients. Each method holds the write lock from its start to its end and is one step
-- here. Instants are nanoseconds of the monotonic clock; where a method reads it twice, the step
-- takes both readings.
pub mod Invariant
pub mod Enqueue
pub mod Dequeue
pub mod Drain
pub mod Backoff
use Prim.Native.Nat.{min}
use aegis_mesh.Base.{
  ℕ, ◌+◌, ◌-◌, ◌*◌, ◌%◌, ◌^◌, Bool, true, false, not, ◌&&◌, ◌||◌, Option, none, some, List, [], ◌∷◌,
  ◌++◌, ltb, leb, filter, length, ◌==◌, nat_eq, list_eq, option_eq, if◌then◌else◌,
}
use aegis_mesh.Base.Btree
use aegis_mesh.Base.Btree.{Key, Tree, keys, remove_all, insert_all}
use aegis_mesh.Base.Clock.{seconds, as_secs}
use aegis_mesh.Crypto.IdentityId.{IdentityId}
use aegis_mesh.Error.{Result, ok, err, queue_full}
use aegis_mesh.Messaging.Envelope.{Envelope}
use aegis_mesh.Messaging.Priority.{Priority, as_u8}

abbrev pub max_per_recipient : ℕ
max_per_recipient = 1000

abbrev pub max_total : ℕ
max_total = 10_000

pub record QueuedEnvelope : Type 0 where
  pub queued_at : ℕ
  pub env : Envelope
  pub attempts : ℕ
  pub priority : ℕ

-- The key is the priority with an instant.
pub record StoreForward : Type 0 where
  pub queue : Tree QueuedEnvelope
  pub max_attempts : ℕ
  pub backoff_base : ℕ
  pub backoff_max : ℕ

unfoldable pub new : StoreForward
new = record {
  queue = [];
  max_attempts = 10;
  backoff_base = seconds 30;
  backoff_max = seconds 3600;
}

-- Whether an entry waits for this recipient.
unfoldable pub is_for : Option IdentityId → Key × QueuedEnvelope → Bool
is_for r (k, qe) = qe.env.recipient == r

unfoldable pub per_recipient : Option IdentityId → Tree QueuedEnvelope → ℕ
per_recipient r queue = length (filter (is_for r) queue)

-- `key_at` and `queued_at` are the two readings of the clock.
unfoldable pub enqueue :
    StoreForward → ℕ → ℕ → Envelope → Priority → StoreForward × Result (Unit {0})
enqueue sf key_at queued_at env priority =
    if leb max_total (length sf.queue)
    then (sf, err queue_full)
    else if leb max_per_recipient (per_recipient env.recipient sf.queue)
    then (sf, err queue_full)
    else (
      record sf {
        queue =
            Btree.insert sf.queue (as_u8 priority, key_at)
              (record {
                queued_at = queued_at;
                env = record env { priority = as_u8 priority };
                attempts = 0;
                priority = as_u8 priority;
              });
      },
      ok tt,
    )

-- `saturating_mul` stops at `u64::MAX`. The result is a duration.
unfoldable pub backoff_for : StoreForward → ℕ → ℕ
backoff_for sf attempts =
    let secs = min (as_secs sf.backoff_base * 2 ^ min attempts 10) (2 ^ 64 - 1) in
    seconds (min secs (as_secs sf.backoff_max))

-- `duration_since` is 0 for a later instant.
unfoldable pub is_due : StoreForward → ℕ → Key × QueuedEnvelope → Bool
is_due sf now (k, qe) = leb (backoff_for sf qe.attempts) (now - qe.queued_at)

-- The loop of `dequeue_due` over the keys, with the queue, `out` and `to_requeue`.
unfoldable pub dequeue_loop :
    StoreForward
    → ℕ
    → ℕ
    → List Key
    → Tree QueuedEnvelope
    → List Envelope
    → Tree QueuedEnvelope
    → Tree QueuedEnvelope × List Envelope × Tree QueuedEnvelope
dequeue_loop sf now n [] queue out back = (queue, out, back)
dequeue_loop sf now n (k ∷ ks) queue out back =
    if leb n (length out) then (queue, out, back) else elim (Btree.get queue k) [
      | none ↦ dequeue_loop sf now n ks queue out back
      | some qe ↦
          let due = is_due sf now (k, qe) in
          dequeue_loop sf now n ks (Btree.remove queue k) (if due then out ++ qe.env ∷ [] else out)
            (if due then back else back ++ (k, qe) ∷ [])
    ]

-- For an `n` of which the room can be reserved.
unfoldable pub dequeue_due : StoreForward → ℕ → ℕ → StoreForward × List Envelope
dequeue_due sf now n =
    let (queue, out, back) = dequeue_loop sf now n (keys sf.queue) sf.queue [] [] in
    (record sf { queue = insert_all queue back }, out)

-- The loop of `drain_for` that clones the envelopes of a recipient.
unfoldable pub collect_for : Tree QueuedEnvelope → IdentityId → List Key → List Envelope
collect_for queue recipient [] = []
collect_for queue recipient (k ∷ ks) =
    let rest = collect_for queue recipient ks in
    elim (Btree.get queue k) [
      | none ↦ rest
      | some qe ↦ if is_for (some recipient) (k, qe) then qe.env ∷ rest else rest
    ]

unfoldable pub drain_for : StoreForward → IdentityId → StoreForward × List Envelope
drain_for sf recipient =
    let out = collect_for sf.queue recipient (keys sf.queue) in
    let to_remove = keys (filter (is_for (some recipient)) sf.queue) in
    (record sf { queue = remove_all sf.queue to_remove }, out)

unfoldable pub requeue : StoreForward → ℕ → ℕ → Envelope → StoreForward × Result (Unit {0})
requeue sf key_at queued_at env =
    if leb max_total (length sf.queue) then (sf, err queue_full) else (
      record sf {
        queue =
            Btree.insert sf.queue (env.priority, key_at)
              (record { queued_at = queued_at; env = env; attempts = 1; priority = env.priority });
      },
      ok tt,
    )

unfoldable pub len : StoreForward → ℕ
len sf = length sf.queue

unfoldable pub is_empty : StoreForward → Bool
is_empty sf = length sf.queue == 0

unfoldable pub is_expired : StoreForward → ℕ → ℕ → Key × QueuedEnvelope → Bool
is_expired sf now retention (k, qe) =
    leb sf.max_attempts qe.attempts || ltb retention (now - qe.queued_at)

unfoldable pub gc : StoreForward → ℕ → ℕ → StoreForward × ℕ
gc sf now retention =
    let initial = length sf.queue in
    let queue = remove_all sf.queue (keys (filter (is_expired sf now retention) sf.queue)) in
    (record sf { queue = queue }, initial - length queue)
