-- ===== src/Mesh/StoreForward/Invariant.antt =====
-- aegis-mesh/crates/aegis-core/src/mesh/store_forward.rs: the queues that calls of the methods
-- reach from an empty one.
use aegis_mesh.Base.{
  ℕ, ◌-◌, ◌≤◌, ◌<◌, ◌≡◌, refl, sym, ap, ◌∙◌, [], ◌∷◌, Bool, not, arith, length, filter, leb, All,
  All-filter, All-drop_first, length-filter-le, length-drop_first-le, drop_first, Bool-cases, inl,
  inr,
}
use mathlib.Core.Path.{subst}
use aegis_mesh.Base.Btree
use aegis_mesh.Base.Btree.{
  Key, Tree, IsSorted, insert-IsSorted, filter-IsSorted, length-insert-le, All-insert,
}
use aegis_mesh.Base.Btree.Bulk.{drop_first-IsSorted}
use aegis_mesh.Base.Clock.{seconds}
use aegis_mesh.Crypto.IdentityId.{IdentityId}
use aegis_mesh.Messaging.Envelope.{Envelope}
use aegis_mesh.Messaging.Priority.{Priority, as_u8}
use aegis_mesh.Mesh.StoreForward.{
  QueuedEnvelope, StoreForward, max_total, new, is_due, is_expired, enqueue, dequeue_due, drain_for,
  requeue, gc,
}
use aegis_mesh.Mesh.StoreForward.Drain.{drain_for_lem, gc_lem}
use aegis_mesh.Mesh.StoreForward.Dequeue.{dequeue_due_lem}
use aegis_mesh.Mesh.StoreForward.Enqueue.{queued}

-- The queues of a run of the program: any sequence of calls, at any readings of the clock.
pub data Reachable : StoreForward → Type 0 where
  created : Reachable new
  enqueued :
      (sf : StoreForward) (key_at queued_at : ℕ) (env : Envelope) (priority : Priority)
      → Reachable sf
      → Reachable (enqueue sf key_at queued_at env priority).0
  requeued :
      (sf : StoreForward) (key_at queued_at : ℕ) (env : Envelope)
      → Reachable sf
      → Reachable (requeue sf key_at queued_at env).0
  dequeued : (sf : StoreForward) (now n : ℕ) → Reachable sf → Reachable (dequeue_due sf now n).0
  drained :
      (sf : StoreForward) (recipient : IdentityId)
      → Reachable sf
      → Reachable (drain_for sf recipient).0
  collected :
      (sf : StoreForward) (now retention : ℕ) → Reachable sf → Reachable (gc sf now retention).0

-- The key repeats the priority of the entry, which is that of the envelope, and at most one
-- attempt is counted.
abbrev pub IsEntry : Key × QueuedEnvelope → Type 0
IsEntry (k, qe) = (k.0 ≡ qe.priority) × (qe.env.priority ≡ qe.priority) × (qe.attempts ≤ 1)

pub record IsQueue (sf : StoreForward) : Type 0 where
  pub sorted : IsSorted sf.queue
  pub bounded : length sf.queue ≤ max_total
  pub entries : All IsEntry sf.queue
  pub max_attempts : sf.max_attempts ≡ 10
  pub backoff_base : sf.backoff_base ≡ seconds 30
  pub backoff_max : sf.backoff_max ≡ seconds 3600

-- Of the entries of a queue, some.
with_filter-IsQueue :
    (sf : StoreForward) (p : Key × QueuedEnvelope → Bool)
    → IsQueue sf
    → IsQueue (record sf { queue = filter p sf.queue })
with_filter-IsQueue sf p i = record {
  sorted = filter-IsSorted p sf.queue i.sorted;
  bounded = omega (arith, length-filter-le p sf.queue, i.bounded);
  entries = All-filter IsEntry p sf.queue i.entries;
  max_attempts = i.max_attempts;
  backoff_base = i.backoff_base;
  backoff_max = i.backoff_max;
}

with_drop_first-IsQueue :
    (sf : StoreForward) (n : ℕ) (p : Key × QueuedEnvelope → Bool)
    → IsQueue sf
    → IsQueue (record sf { queue = drop_first n p sf.queue })
with_drop_first-IsQueue sf n p i = record {
  sorted = drop_first-IsSorted n p sf.queue i.sorted;
  bounded = omega (arith, length-drop_first-le n p sf.queue, i.bounded);
  entries = All-drop_first IsEntry n p sf.queue i.entries;
  max_attempts = i.max_attempts;
  backoff_base = i.backoff_base;
  backoff_max = i.backoff_max;
}

with_insert-IsQueue :
    (sf : StoreForward) (k : Key) (qe : QueuedEnvelope)
    → IsQueue sf
    → length sf.queue < max_total
    → IsEntry (k, qe)
    → IsQueue (record sf { queue = Btree.insert sf.queue k qe })
with_insert-IsQueue sf k qe i room e = record {
  sorted = insert-IsSorted sf.queue k qe i.sorted;
  bounded = omega (arith, length-insert-le sf.queue k qe, room);
  entries = All-insert IsEntry sf.queue k qe i.entries e;
  max_attempts = i.max_attempts;
  backoff_base = i.backoff_base;
  backoff_max = i.backoff_max;
}

enqueue-IsQueue :
    (sf : StoreForward) (key_at queued_at : ℕ) (env : Envelope) (priority : Priority)
    → IsQueue sf
    → IsQueue (enqueue sf key_at queued_at env priority).0
unfolding enqueue
enqueue-IsQueue sf key_at queued_at env priority i =
    ground
      (arith, with_insert-IsQueue sf (as_u8 priority, key_at) (queued queued_at env priority) i)

requeue-IsQueue :
    (sf : StoreForward) (key_at queued_at : ℕ) (env : Envelope)
    → IsQueue sf
    → IsQueue (requeue sf key_at queued_at env).0
unfolding requeue
requeue-IsQueue sf key_at queued_at env i = elim (Bool-cases (leb max_total (length sf.queue))) [
  | inl full ↦ rw full i
  | inr free ↦
      rw free
        (with_insert-IsQueue sf (env.priority, key_at) _ i (ground arith) (refl, refl, omega arith))
]

-- Every queue that the program reaches is in order of priority, then of time, holds at most ten
-- thousand entries, and counts at most one attempt for each: `requeue` writes 1 and never adds.
pub Reachable-IsQueue : (sf : StoreForward) → Reachable sf → IsQueue sf
unfolding new
Reachable-IsQueue _ created = record {
  sorted = tt;
  bounded = omega arith;
  entries = tt;
  max_attempts = refl;
  backoff_base = refl;
  backoff_max = refl;
}
Reachable-IsQueue _ (enqueued sf key_at queued_at env priority r) =
    enqueue-IsQueue sf key_at queued_at env priority (Reachable-IsQueue sf r)
Reachable-IsQueue _ (requeued sf key_at queued_at env r) =
    requeue-IsQueue sf key_at queued_at env (Reachable-IsQueue sf r)
Reachable-IsQueue _ (dequeued sf now n r) =
    let i = Reachable-IsQueue sf r in
    subst IsQueue (sym (dequeue_due_lem sf now n i.sorted).1)
      (with_drop_first-IsQueue sf n (is_due sf now) i)
Reachable-IsQueue _ (drained sf recipient r) =
    let i = Reachable-IsQueue sf r in
    subst IsQueue (sym (drain_for_lem sf recipient i.sorted).1) (with_filter-IsQueue sf _ i)
Reachable-IsQueue _ (collected sf now retention r) =
    let i = Reachable-IsQueue sf r in
    subst IsQueue (sym (gc_lem sf now retention i.sorted).0) (with_filter-IsQueue sf _ i)

is_expired-IsEntry :
    (sf : StoreForward) (now retention : ℕ) (m : Tree QueuedEnvelope)
    → sf.max_attempts ≡ 10
    → All IsEntry m
    → filter (λ e. not (is_expired sf now retention e)) m
      ≡ filter (λ e. leb (now - e.1.queued_at) retention) m
unfolding is_expired
is_expired-IsEntry sf now retention [] h a = refl
is_expired-IsEntry sf now retention ((k, qe) ∷ m) h a =
    ground (arith, is_expired-IsEntry sf now retention m h a.1)

-- In a queue that the program reaches, `gc` drops exactly the entries older than the retention
-- time: no number of failed deliveries ever makes an entry expire, as the test of `max_attempts`
-- means to.
pub gc-Reachable :
    (sf : StoreForward) (now retention : ℕ)
    → Reachable sf
    → (gc sf now retention).0.queue ≡ filter (λ e. leb (now - e.1.queued_at) retention) sf.queue
gc-Reachable sf now retention r =
    let i = Reachable-IsQueue sf r in
    ap (λ s. s.queue) (gc_lem sf now retention i.sorted).0
    ∙ is_expired-IsEntry sf now retention sf.queue i.max_attempts i.entries
