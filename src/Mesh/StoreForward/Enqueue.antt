-- ===== src/Mesh/StoreForward/Enqueue.antt =====
-- aegis-mesh/crates/aegis-core/src/mesh/store_forward.rs: when `enqueue` refuses, and what it
-- stores.
use aegis_mesh.Base.{
  ℕ, ◌+◌, ◌≤◌, ◌<◌, ◌≡◌, ◌⊎◌, inl, inr, refl, Option, none, some, arith, length, if◌then◌else◌, leb,
  nat_eq, list_eq, option_eq, ==_iff, Bool-cases, leb→le,
}
use Prim.Native.Nat.{max}
use aegis_mesh.Base.Btree
use aegis_mesh.Base.Btree.{
  Key, Tree, IsSorted, get-insert, length-insert, length-filter-insert, key_eq,
}
use aegis_mesh.Crypto.IdentityId.{IdentityId}
use aegis_mesh.Error.{ok, err, queue_full}
use aegis_mesh.Messaging.Envelope.{Envelope}
use aegis_mesh.Messaging.Priority.{Priority, as_u8}
use aegis_mesh.Mesh.StoreForward.{
  QueuedEnvelope, StoreForward, max_total, max_per_recipient, is_for, per_recipient, enqueue,
}

-- What `enqueue` stores.
abbrev pub queued : ℕ → Envelope → Priority → QueuedEnvelope
queued queued_at env priority = record {
  queued_at = queued_at;
  env = record env { priority = as_u8 priority };
  attempts = 0;
  priority = as_u8 priority;
}

-- The queue has room for one more message to this recipient.
pub record HasRoom (sf : StoreForward) (r : Option IdentityId) : Type 0 where
  pub total : length sf.queue < max_total
  pub recipient : per_recipient r sf.queue < max_per_recipient

-- On a sorted queue, `enqueue` succeeds exactly if there is room for the recipient. Then the entry
-- stands under its key, every other key reads as before, and the queue is one longer, unless an
-- entry stood under that very key: it is replaced. On an error the queue is as it was.
pub enqueue_lem :
    (sf : StoreForward) (key_at queued_at : ℕ) (env : Envelope) (priority : Priority)
    → IsSorted sf.queue
    → let (after, result) = enqueue sf key_at queued_at env priority in
      let k : Key = (as_u8 priority, key_at) in
      ((result ≡ ok tt)
        × HasRoom sf env.recipient
        × ((j : Key)
            → Btree.get after.queue j
              ≡ (if key_eq k j then some (queued queued_at env priority) else Btree.get sf.queue j))
        × (length after.queue ≡ elim (Btree.get sf.queue k) [
          | none ↦ length sf.queue + 1
          | some old ↦ length sf.queue
        ]))
      ⊎ ((result ≡ err queue_full)
          × (after ≡ sf)
          × ((max_total ≤ length sf.queue)
              ⊎ (max_per_recipient ≤ per_recipient env.recipient sf.queue)))
unfolding enqueue
enqueue_lem sf key_at queued_at env priority s =
    let k : Key = (as_u8 priority, key_at) in
    let e = queued queued_at env priority in
    elim (Bool-cases (leb max_total (length sf.queue))) [
      | inl full ↦ rw full (inr (refl, refl, inl (leb→le max_total (length sf.queue) full)))
      | inr free ↦
          rw free
            (elim (Bool-cases (leb max_per_recipient (per_recipient env.recipient sf.queue))) [
              | inl full ↦ rw full (inr (refl, refl, inr (ground arith)))
              | inr fits ↦ rw fits (
                  inl (
                    refl,
                    record { total = ground arith; recipient = ground arith },
                    (λ j. get-insert sf.queue k j e s),
                    length-insert sf.queue k e s,
                  ))
            ])
    ]

-- However many messages to a recipient wait, `enqueue` never takes that number above a thousand.
pub per_recipient-enqueue :
    (sf : StoreForward) (key_at queued_at : ℕ) (env : Envelope) (priority : Priority)
    (recipient : Option IdentityId)
    → per_recipient recipient (enqueue sf key_at queued_at env priority).0.queue
      ≤ max (per_recipient recipient sf.queue) max_per_recipient
unfolding enqueue per_recipient is_for
per_recipient-enqueue sf key_at queued_at env priority recipient = ground (
  arith,
  ==_iff env.recipient recipient,
  length-filter-insert (is_for recipient) sf.queue (as_u8 priority, key_at)
      (queued queued_at env priority),
)
