-- ===== src/Mesh/StoreForward/Drain.antt =====
-- aegis-mesh/crates/aegis-core/src/mesh/store_forward.rs: what `drain_for` and `gc` take out.
use aegis_mesh.Base.{
  ℕ, ◌≡◌, refl, ap, not, some, List, [], ◌∷◌, map, arith, length, filter, length-filter-not,
}
use aegis_mesh.Base.Btree
use aegis_mesh.Base.Btree.{Key, Tree, IsSorted, AllAfter, keys, remove_all}
use aegis_mesh.Base.Btree.Bulk.{remove_all-filter, key_eq_self, key_eq-Before}
use aegis_mesh.Crypto.IdentityId.{IdentityId}
use aegis_mesh.Messaging.Envelope.{Envelope}
use aegis_mesh.Mesh.StoreForward.{
  QueuedEnvelope, StoreForward, is_for, collect_for, drain_for, is_expired, gc,
}

-- The envelopes of the entries, in their order.
abbrev pub envelopes : Tree QueuedEnvelope → List Envelope
envelopes queue = map (λ e. e.1.env) queue

-- A loop over the keys after `k` reads nothing of the entry at `k`.
collect_for-cons :
    (r : IdentityId) (k : Key) (qe : QueuedEnvelope) (queue m : Tree QueuedEnvelope)
    → AllAfter k m
    → collect_for ((k, qe) ∷ queue) r (keys m) ≡ collect_for queue r (keys m)
unfolding collect_for Btree.get
collect_for-cons r k qe queue [] a = refl
collect_for-cons r k qe queue ((j, w) ∷ m) a =
    ground (arith, key_eq-Before k j a.0, collect_for-cons r k qe queue m a.1)

collect_for_lem :
    (r : IdentityId) (queue : Tree QueuedEnvelope)
    → IsSorted queue
    → collect_for queue r (keys queue) ≡ envelopes (filter (is_for (some r)) queue)
unfolding collect_for Btree.get
collect_for_lem r [] s = refl
collect_for_lem r ((k, qe) ∷ m) s =
    ground (arith, key_eq_self k, collect_for-cons r k qe m m s.0, collect_for_lem r m s.1)

-- For a sorted queue, `drain_for` returns the envelopes for the recipient in the order of the
-- queue, and what it leaves is exactly the entries for others, in their order.
pub drain_for_lem :
    (sf : StoreForward) (r : IdentityId)
    → IsSorted sf.queue
    → ((drain_for sf r).1 ≡ envelopes (filter (is_for (some r)) sf.queue))
      × ((drain_for sf r).0 ≡ record sf { queue = filter (λ e. not (is_for (some r) e)) sf.queue })
unfolding drain_for
drain_for_lem sf r s = (
  collect_for_lem r sf.queue s,
  ap (λ q. record sf { queue = q }) (remove_all-filter (is_for (some r)) sf.queue s),
)

-- For a sorted queue, `gc` leaves exactly the entries that are not expired, and returns how many
-- it removed.
pub gc_lem :
    (sf : StoreForward) (now retention : ℕ)
    → IsSorted sf.queue
    → ((gc sf now retention).0
        ≡ record sf { queue = filter (λ e. not (is_expired sf now retention e)) sf.queue })
      × ((gc sf now retention).1 ≡ length (filter (is_expired sf now retention) sf.queue))
unfolding gc
gc_lem sf now retention s =
    rw (remove_all-filter (is_expired sf now retention) sf.queue s)
      (refl, omega (arith, length-filter-not (is_expired sf now retention) sf.queue))
