-- ===== src/Mesh/StoreForward/Dequeue.antt =====
-- aegis-mesh/crates/aegis-core/src/mesh/store_forward.rs: what `dequeue_due` takes out.
use mathlib.Core.List.{append_assoc, append-nil}
use aegis_mesh.Base.{
  ℕ, zero, suc, ◌+◌, ◌≤◌, ◌<◌, ◌≡◌, refl, sym, ap, ◌∙◌, transport, Bool, true, false, List, [], ◌∷◌,
  ◌++◌, arith, length, filter, take, drop_first, drop_first_zero, Bool-cases, inl, inr, leb, le→leb,
  length-append,
}
use aegis_mesh.Base.Btree.{Key, Tree, IsSorted, keys}
use aegis_mesh.Base.Btree.Bulk.{insert_all-append, get_first, remove_first, drop_first-IsSorted}
use aegis_mesh.Messaging.Envelope.{Envelope}
use aegis_mesh.Mesh.StoreForward.{QueuedEnvelope, StoreForward, is_due, dequeue_loop, dequeue_due}
use aegis_mesh.Mesh.StoreForward.Drain.{envelopes}

module _ (sf : StoreForward) (now : ℕ) where
  due : Key × QueuedEnvelope → Bool
  due e = is_due sf now e

  -- The envelopes of the first `n` entries that are due.
  abbrev pub first_due : ℕ → Tree QueuedEnvelope → List Envelope
  first_due n queue = take n (envelopes (filter (is_due sf now) queue))

  abbrev Outcome : Type 0
  Outcome = Tree QueuedEnvelope × List Envelope × Tree QueuedEnvelope

  abbrev run_loop : ℕ → Tree QueuedEnvelope → List Envelope → Tree QueuedEnvelope → Outcome
  run_loop room queue out back = dequeue_loop sf now room (keys queue) queue out back

  run_loop_full :
      (room : ℕ) (k : Key) (qe : QueuedEnvelope) (m back : Tree QueuedEnvelope)
      (out : List Envelope)
      → room ≤ length out
      → run_loop room ((k, qe) ∷ m) out back ≡ ((k, qe) ∷ m, out, back)
  unfolding dequeue_loop
  run_loop_full room k qe m back out h = rw (le→leb room (length out) h) refl

  run_loop_due :
      (room : ℕ) (k : Key) (qe : QueuedEnvelope) (m back : Tree QueuedEnvelope)
      (out : List Envelope)
      → length out < room
      → is_due sf now (k, qe) ≡ true
      → run_loop room ((k, qe) ∷ m) out back ≡ run_loop room m (out ++ qe.env ∷ []) back
  unfolding dequeue_loop
  run_loop_due room k qe m back out h d =
      let has_room : leb room (length out) ≡ false = ground arith in
      rw (has_room, get_first m k qe, remove_first m k qe, d) refl

  run_loop_early :
      (room : ℕ) (k : Key) (qe : QueuedEnvelope) (m back : Tree QueuedEnvelope)
      (out : List Envelope)
      → length out < room
      → is_due sf now (k, qe) ≡ false
      → run_loop room ((k, qe) ∷ m) out back ≡ run_loop room m out (back ++ (k, qe) ∷ [])
  unfolding dequeue_loop
  run_loop_early room k qe m back out h d =
      let has_room : leb room (length out) ≡ false = ground arith in
      rw (has_room, get_first m k qe, remove_first m k qe, d) refl

  -- The loop took the first `n` due entries out, and what it passed over and what it left are the
  -- others in their order.
  abbrev TakesFirst :
      ℕ → Tree QueuedEnvelope → List Envelope → Tree QueuedEnvelope → Outcome → Type 0
  TakesFirst n queue out back (left, taken, passed) =
      (taken ≡ out ++ first_due n queue)
      × (passed ++ left ≡ back ++ drop_first n (is_due sf now) queue)

  dequeue_loop_lem :
      (n room : ℕ) (queue back : Tree QueuedEnvelope) (out : List Envelope)
      → length out + n ≡ room
      → TakesFirst n queue out back (run_loop room queue out back)
  unfolding dequeue_loop
  dequeue_loop_lem zero room [] back out h = (sym (append-nil out), refl)
  dequeue_loop_lem (suc n) room [] back out h = (sym (append-nil out), refl)
  dequeue_loop_lem zero room ((k, qe) ∷ m) back out h =
      rw (run_loop_full room k qe m back out (omega arith))
        (sym (append-nil out), ap (◌++◌ back) (sym (drop_first_zero (is_due sf now) ((k, qe) ∷ m))))
  dequeue_loop_lem (suc n) room ((k, qe) ∷ m) back out h =
      elim (Bool-cases (is_due sf now (k, qe))) [
        | inl hit ↦
            let grown = length-append out (qe.env ∷ []) in
            let rest = dequeue_loop_lem n room m back (out ++ qe.env ∷ []) (omega arith) in
            rw (run_loop_due room k qe m back out (omega arith) hit, hit)
              (rest.0 ∙ append_assoc out (qe.env ∷ []) (first_due n m), rest.1)
        | inr miss ↦
            let others = drop_first (suc n) (is_due sf now) m in
            let rest = dequeue_loop_lem (suc n) room m (back ++ (k, qe) ∷ []) out h in
            rw (run_loop_early room k qe m back out (omega arith) miss, miss)
              (rest.0, rest.1 ∙ append_assoc back ((k, qe) ∷ []) others)
      ]

-- For a sorted queue, `dequeue_due` returns the envelopes of the first `n` entries that are due, in
-- the order of the queue, and it leaves exactly the other entries, each in its place.
pub dequeue_due_lem :
    (sf : StoreForward) (now n : ℕ)
    → IsSorted sf.queue
    → ((dequeue_due sf now n).1 ≡ first_due sf now n sf.queue)
      × ((dequeue_due sf now n).0 ≡ record sf { queue = drop_first n (is_due sf now) sf.queue })
unfolding dequeue_due
dequeue_due_lem sf now n s =
    let (left, taken, passed) = dequeue_loop sf now n (keys sf.queue) sf.queue [] [] in
    let spec = dequeue_loop_lem sf now n n sf.queue [] [] (omega arith) in
    let kept = drop_first-IsSorted n (is_due sf now) sf.queue s in
    let sorted = transport (ap IsSorted (sym spec.1)) kept in
    (spec.0, ap (λ q. record sf { queue = q }) (insert_all-append [] passed left sorted ∙ spec.1))
