-- ===== src/Storage/Sqlite/Spec/Runs.antt =====
-- aegis-mesh/crates/aegis-core/src/storage/sqlite.rs: the methods on envelopes refine the mailbox.
use aegis_mesh.Base.{
  ℕ, ◌≡◌, ◌≢◌, ◌⊎◌, refl, arith, true, false, Option, List, [], ◌∷◌, All, map, nat_eq, list_eq,
  if◌then◌else◌, Bool-cases, Option-cases, inl, inr,
}
use aegis_mesh.Base.Reorder.{Reordered}
use aegis_mesh.Base.Text.{Text}
use aegis_mesh.Crypto.IdentityId.{IdentityId}
use aegis_mesh.Error.{Result, ok, err, is_err, sqlite}
use aegis_mesh.Json.{Json}
use aegis_mesh.Messaging.Channel.{Channel}
use aegis_mesh.Messaging.Envelope.{Envelope}
use aegis_mesh.Messaging.Envelope.Body.{Payload}
use aegis_mesh.Storage.Sqlite.{
  Tables, SqliteStore, settled, new_tables, Engine, succeeded, failed, rolled_back, Answers,
  WipeAnswers, open_in_memory, execute, mark_delivered, kv_set, kv_delete, begin_immediate,
  commit_all, vacuum, wipe,
}
use aegis_mesh.Storage.Sqlite.Mail.{Scan, store_envelope, store_channel, undelivered_for}
use aegis_mesh.Storage.Sqlite.Spec.{Mailbox, put, mark, waiting, IsOldestFirst, IsStorable, Refines}
use aegis_mesh.Storage.Sqlite.Spec.Rows.{envelopes_of-waiting, insert_or_ignore-put, mark-Refines}
use aegis_mesh.Storage.Sqlite.Wipe.{emptied, outcome}

-- The calls of the methods that write, each with what the engine answers and the clock.
pub data Call : Type 0 where
  stored : Answers → ℕ → Envelope → Call
  marked : Answers → Text → Call
  channel_stored : Answers → Channel → Call
  set : Answers → Text → List ℕ → Call
  deleted : Answers → Text → Call
  wiped : WipeAnswers → Call

-- A wipe that does all of its work, or fails before its transaction has begun, or whose transaction the
-- engine rolls back.
abbrev pub IsWhole : WipeAnswers → Type 0
IsWhole w =
    (w.begin ≢ succeeded)
    ⊎ (outcome w ≡ rolled_back)
    ⊎ ((outcome w ≡ succeeded) × (w.vacuum ≡ succeeded))

abbrev pub IsRegular : Call → Type 0
IsRegular (stored answers now env) = IsStorable env
IsRegular (wiped w) = IsWhole w
IsRegular _ = Unit

module _ (payloads : Json Payload) (members : Json (Option (List Text)))
    (admins : Json (List Text)) where
  abbrev pub perform : SqliteStore → Call → SqliteStore × Result (Unit {0})
  perform store (stored answers now env) = store_envelope payloads answers now env store
  perform store (marked answers id) = mark_delivered answers id store
  perform store (channel_stored answers ch) = store_channel members admins answers ch store
  perform store (set answers key value) = kv_set answers key value store
  perform store (deleted answers key) = kv_delete answers key store
  perform store (wiped w) = wipe w store

  abbrev pub effect : Call → Mailbox → Mailbox
  effect (stored answers now env) mb = put env mb
  effect (marked answers id) mb = mark id mb
  effect (wiped w) mb = []
  effect _ mb = mb

  pub run : SqliteStore → List Call → SqliteStore
  run store [] = store
  run store (c ∷ cs) = run (perform store c).0 cs

  -- The mailbox after the calls that were reported as done.
  unfoldable pub run_mailbox : SqliteStore → Mailbox → List Call → Mailbox
  run_mailbox store mb [] = mb
  run_mailbox store mb (c ∷ cs) =
      let (after, reply) = perform store c in
      run_mailbox after (if is_err reply then mb else effect c mb) cs

  -- A statement outside of a transaction takes effect and is on the disk, or changes nothing.
  execute-settled :
      (e : Engine) (change : Tables → Tables) (t : Tables)
      → (execute e change (settled t) ≡ (settled (change t), ok tt))
        ⊎ (execute e change (settled t) ≡ (settled t, err sqlite))
  unfolding execute
  execute-settled succeeded change t = inl refl
  execute-settled failed change t = inr refl
  execute-settled rolled_back change t = inr refl

  -- What a call leaves: a store outside of a transaction, whose envelopes refine the mailbox.
  abbrev Leaves : SqliteStore × Result (Unit {0}) → Mailbox → Mailbox → Type 0
  Leaves (after, reply) mb new =
      (t : Tables) × (after ≡ settled t)
      × Refines payloads t.envelopes (if is_err reply then mb else new)

  Leaves-execute :
      (e : Engine) (change : Tables → Tables) (t : Tables) (mb new : Mailbox)
      → Refines payloads t.envelopes mb
      → Refines payloads (change t).envelopes new
      → Leaves (execute e change (settled t)) mb new
  Leaves-execute e change t mb new h h' = elim (execute-settled e change t) [
    | inl done ↦ rw done (change t, refl, h')
    | inr refused ↦ rw refused (t, refl, h)
  ]

  wipe_whole :
      (w : WipeAnswers) (t : Tables)
      → IsWhole w
      → (wipe w (settled t) ≡ (settled (emptied t), ok tt))
        ⊎ (((wipe w (settled t)).0 ≡ settled t) × (is_err (wipe w (settled t)).1 ≡ true))
  unfolding wipe execute begin_immediate commit_all vacuum
  wipe_whole w t h = ground arith

  perform-Leaves :
      (t : Tables) (mb : Mailbox) (c : Call)
      → IsRegular c
      → Refines payloads t.envelopes mb
      → Leaves (perform (settled t) c) mb (effect c mb)
  unfolding store_envelope mark_delivered store_channel kv_set kv_delete
  perform-Leaves t mb (stored answers now env) s h = elim (Bool-cases answers.is_poisoned) [
    | inl p ↦ rw (p, store_envelope) (t, refl, h)
    | inr p ↦ elim (Option-cases (payloads.to_vec env.payload)) [
      | inl q ↦ rw (p, q, store_envelope) (t, refl, h)
      | inr (bytes, q) ↦
          rw (p, q, store_envelope)
            (Leaves-execute answers.engine _ t mb (put env mb) h
              (insert_or_ignore-put payloads env bytes now t.envelopes mb s q h))
    ]
  ]
  perform-Leaves t mb (marked answers id) s h = elim (Bool-cases answers.is_poisoned) [
    | inl p ↦ rw (p, mark_delivered) (t, refl, h)
    | inr p ↦
        rw (p, mark_delivered)
          (Leaves-execute answers.engine _ t mb (mark id mb) h
            (mark-Refines payloads id t.envelopes mb h))
  ]
  perform-Leaves t mb (channel_stored answers ch) s h = elim (Bool-cases answers.is_poisoned) [
    | inl p ↦ rw (p, store_channel) (t, refl, h)
    | inr p ↦ elim (Option-cases (members.to_vec ch.members)) [
      | inl q ↦ rw (p, q, store_channel) (t, refl, h)
      | inr (bytes, q) ↦ elim (Option-cases (admins.to_vec ch.admins)) [
        | inl r ↦ rw (p, q, r, store_channel) (t, refl, h)
        | inr (blob, r) ↦ rw (p, q, r, store_channel) (Leaves-execute answers.engine _ t mb mb h h)
      ]
    ]
  ]
  perform-Leaves t mb (set answers key value) s h = elim (Bool-cases answers.is_poisoned) [
    | inl p ↦ rw (p, kv_set) (t, refl, h)
    | inr p ↦ rw (p, kv_set) (Leaves-execute answers.engine _ t mb mb h h)
  ]
  perform-Leaves t mb (deleted answers key) s h = elim (Bool-cases answers.is_poisoned) [
    | inl p ↦ rw (p, kv_delete) (t, refl, h)
    | inr p ↦ rw (p, kv_delete) (Leaves-execute answers.engine _ t mb mb h h)
  ]
  perform-Leaves t mb (wiped w) s h = elim (wipe_whole w t s) [
    | inl done ↦ rw done (emptied t, refl, tt)
    | inr (same, refused) ↦ rw refused (t, same, h)
  ]

  run-Refines :
      (t : Tables) (mb : Mailbox) (cs : List Call)
      → All IsRegular cs
      → Refines payloads t.envelopes mb
      → (last : Tables) × (run (settled t) cs ≡ settled last)
        × Refines payloads last.envelopes (run_mailbox (settled t) mb cs)
  unfolding run run_mailbox
  run-Refines t mb [] s h = (t, refl, h)
  run-Refines t mb (c ∷ cs) s h =
      let (next, same, r) = perform-Leaves t mb c s.0 h in rw same (run-Refines next _ cs s.1 r)

  -- The table of envelopes refines a mailbox: after any calls on a new store of the methods that
  -- write, whichever of them fail, if every wipe does all of its work, fails before it begins or
  -- is rolled back by the engine, undelivered_for returns the envelopes for the recipient that the
  -- calls reported as done put there first under their identifiers since the last wipe and did not
  -- mark as delivered, whole, each once, and the oldest first; those of one time stamp may stand
  -- in any order. The envelopes have the current version, canonical identifiers, signatures of 64
  -- bytes if any, and times before the year 2262.
  pub undelivered_for-run :
      (store : SqliteStore) (cs : List Call) (scan : Scan) (recipient : IdentityId)
      → open_in_memory true ≡ ok store
      → All IsRegular cs
      → (out : Mailbox) × (undelivered_for payloads scan
            (record { is_poisoned = false; engine = succeeded })
            recipient
            (run store cs)
          ≡ ok (map (λ e. e.env) out))
        × Reordered out (waiting recipient (run_mailbox store [] cs))
        × IsOldestFirst out
  unfolding undelivered_for open_in_memory
  undelivered_for-run store cs scan recipient fresh s =
      let new : settled new_tables ≡ store = cc in
      let (last, same, r) = run-Refines new_tables [] cs s tt in
      rw (← new, same)
        (envelopes_of-waiting payloads scan recipient last.envelopes
          (run_mailbox (settled new_tables) [] cs) r)
