-- ===== src/Mesh/Tests/StoreForward.antt =====
-- The theorems on aegis-mesh/crates/aegis-core/src/mesh/store_forward.rs at concrete values.
use aegis_mesh.Base.{
  ◌+◌, ◌-◌, ◌≤◌, ◌≡◌, ◌⊎◌, not, none, some, [], ◌∷◌, inl, arith, filter, length, leb, drop_first,
  if◌then◌else◌, nat_eq, list_eq, option_eq,
}
use aegis_mesh.Base.Btree
use aegis_mesh.Base.Btree.{Key, Tree, IsSorted, key_eq}
use aegis_mesh.Base.Clock.{seconds}
use aegis_mesh.Error.{ok, err, queue_full}
use aegis_mesh.Messaging.Priority.{normal, as_u8}
use aegis_mesh.Mesh.StoreForward.{
  StoreForward, new, max_total, max_per_recipient, is_for, is_due, per_recipient, enqueue, requeue,
  dequeue_due, drain_for, gc,
}
use aegis_mesh.Mesh.StoreForward.Drain.{envelopes, drain_for_lem}
use aegis_mesh.Mesh.StoreForward.Dequeue.{first_due, dequeue_due_lem}
use aegis_mesh.Mesh.StoreForward.Enqueue.{queued, HasRoom, enqueue_lem}
use aegis_mesh.Mesh.StoreForward.Invariant.{
  Reachable, created, enqueued, requeued, IsQueue, Reachable-IsQueue, gc-Reachable,
}
use aegis_mesh.Samples.{bob, carol, message}

-- A queue with an emergency for Carol and a message for Bob.
abbrev two : StoreForward
two = record {
  queue =
      (
        (0, 20),
        record {
          queued_at = 20;
          env = record message { recipient = some carol; priority = 0 };
          attempts = 0;
          priority = 0;
        },
      )
      ∷ ((2, 10), record { queued_at = 10; env = message; attempts = 0; priority = 2 })
      ∷ [];
  max_attempts = 10;
  backoff_base = seconds 30;
  backoff_max = seconds 3600;
}

two-IsSorted : IsSorted two.queue
two-IsSorted = ((inl (omega arith), tt), (tt, tt))

drain_for_lem_example :
    ((drain_for two bob).1 ≡ envelopes (filter (is_for (some bob)) two.queue))
    × ((drain_for two bob).0
        ≡ record two { queue = filter (λ e. not (is_for (some bob) e)) two.queue })
drain_for_lem_example = drain_for_lem two bob two-IsSorted

dequeue_due_lem_example :
    ((dequeue_due two 40_000_000_000 1).1 ≡ first_due two 40_000_000_000 1 two.queue)
    × ((dequeue_due two 40_000_000_000 1).0
        ≡ record two { queue = drop_first 1 (is_due two 40_000_000_000) two.queue })
dequeue_due_lem_example = dequeue_due_lem two 40_000_000_000 1 two-IsSorted

enqueue_lem_example :
    (((enqueue two 30 31 message normal).1 ≡ ok tt)
      × HasRoom two (some bob)
      × ((j : Key)
          → Btree.get (enqueue two 30 31 message normal).0.queue j
            ≡ (if key_eq (2, 30) j then some (queued 31 message normal) else Btree.get two.queue j))
      × (length (enqueue two 30 31 message normal).0.queue ≡ elim (Btree.get two.queue (2, 30)) [
        | none ↦ length two.queue + 1
        | some old ↦ length two.queue
      ]))
    ⊎ (((enqueue two 30 31 message normal).1 ≡ err queue_full)
        × ((enqueue two 30 31 message normal).0 ≡ two)
        × ((max_total ≤ length two.queue)
            ⊎ (max_per_recipient ≤ per_recipient (some bob) two.queue)))
unfolding as_u8
enqueue_lem_example = enqueue_lem two 30 31 message normal two-IsSorted

-- A message that was put in the queue, and put back after a failed delivery.
abbrev again : StoreForward
again = (requeue (enqueue new 10 10 message normal).0 20 20 message).0

again-Reachable : Reachable again
again-Reachable =
    requeued (enqueue new 10 10 message normal).0 20 20 message
      (enqueued new 10 10 message normal created)

Reachable-IsQueue_example : IsQueue again
Reachable-IsQueue_example = Reachable-IsQueue again again-Reachable

gc-Reachable_example :
    (gc again 500 100).0.queue ≡ filter (λ e. leb (500 - e.1.queued_at) 100) again.queue
gc-Reachable_example = gc-Reachable again 500 100 again-Reachable
