-- ===== src/Storage/Sqlite/Spec/Rows.antt =====
-- aegis-mesh/crates/aegis-core/src/storage/sqlite.rs: what is read from the rows of a mailbox.
use aegis_mesh.Base.Reorder.{Reordered, nil, cons, swap, trans, Reordered-refl}
use aegis_mesh.Base.{
  All, ◌≤◌, ℕ, ◌+◌, ◌%◌, ◌^◌, ◌≡◌, refl, ap, ◌∙◌, arith, false, Option, none, some, List, [], ◌∷◌,
  ◌++◌, length, filter, map, leb, ◌==◌, nat_eq, list_eq, option_eq, if◌then◌else◌, Bool-cases, inl,
  inr,
}
use aegis_mesh.Base.Text.{Text, Bytes}
use aegis_mesh.Crypto.IdentityId.{IdentityId}
use aegis_mesh.Crypto.IdentityId
use aegis_mesh.Error.{ok}
use aegis_mesh.Json.{Json}
use aegis_mesh.Messaging.Envelope.{Envelope, u64_mod}
use aegis_mesh.Messaging.Envelope.Body.{Payload}
use aegis_mesh.Messaging.Envelope.Kind
use aegis_mesh.Storage.Sqlite.{EnvelopeRow, signed_order, mark_row}
use aegis_mesh.Storage.Sqlite.Mail.{
  row_of, insert_by_time, order_by_time, is_waiting, kept_signature, parse_recipient, envelope_of,
  envelopes_of, insert_or_ignore, has_id, Scan,
}
use aegis_mesh.Storage.Sqlite.Spec.{
  Entry, Mailbox, holds, put, mark_entry, mark, insert_entry, oldest_first, awaits, waiting,
  IsOldestFirst, IsStorable, IsRow, Refines,
}

kept_signature_lem :
    (s : Option Bytes) → ((b : Bytes) → s ≡ some b → length b ≡ 64) → kept_signature s ≡ s
kept_signature_lem none h = refl
kept_signature_lem (some b) h = ground (arith, h b refl)

parse_recipient_lem :
    (r : Option Text)
    → ((t : Text) → r ≡ some t → IdentityId.from_str t ≡ ok t)
    → parse_recipient r ≡ ok r
unfolding parse_recipient
parse_recipient_lem none h = refl
parse_recipient_lem (some t) h = ground (arith, h t refl)

module _ (payloads : Json Payload) where
  envelope_of-row_of :
      (env : Envelope) (payload : Bytes) (received : ℕ) (delivered : ℕ)
      → IsStorable env
      → payloads.to_vec env.payload ≡ some payload
      → envelope_of payloads
          (record (row_of env payload 0) { received_ns = received; delivered = delivered })
        ≡ ok env
  unfolding envelope_of row_of
  envelope_of-row_of env payload received delivered s p =
      rw
        (
          (Kind.from_str-as_str (Kind.as_str env.kind) env.kind).1 refl,
          payloads.round_trip env.payload payload p,
          s.sender,
          parse_recipient_lem env.recipient s.recipient,
          s.id,
          kept_signature_lem env.signature s.signature,
        )
        (ground arith)

  module _ (e : Entry) (r : EnvelopeRow) (h : IsRow payloads e r) where
    envelope_of-IsRow : envelope_of payloads r ≡ ok e.env
    envelope_of-IsRow =
        ap (envelope_of payloads) h.row
        ∙ envelope_of-row_of e.env r.payload r.received_ns (if e.is_delivered then 1 else 0)
            h.storable h.payload

    id-IsRow : r.id ≡ e.env.id
    unfolding row_of
    id-IsRow = ap (λ r. r.id) h.row

    is_waiting-IsRow : (recipient : IdentityId) → is_waiting recipient r ≡ awaits recipient e
    unfolding row_of
    is_waiting-IsRow recipient =
        let same : r.recipient ≡ e.env.recipient = ap (λ r. r.recipient) h.row in
        let done : r.delivered ≡ (if e.is_delivered then 1 else 0) = ap (λ r. r.delivered) h.row in
        rw (same, done) (ground arith)

    signed_order-IsRow : signed_order r.timestamp_ns ≡ e.env.timestamp_ns + 2 ^ 63
    unfolding row_of
    signed_order-IsRow =
        let time : r.timestamp_ns ≡ e.env.timestamp_ns % u64_mod = ap (λ r. r.timestamp_ns) h.row in
        omega (arith, time, h.storable.time)

  module _ (recipient : IdentityId) where
    filter-Refines :
        (rs : List EnvelopeRow) (mb : Mailbox)
        → Refines payloads rs mb
        → Refines payloads (filter (is_waiting recipient) rs) (filter (awaits recipient) mb)
    filter-Refines [] [] h = tt
    filter-Refines [] (e ∷ mb) h = absurd h
    filter-Refines (r ∷ rs) [] h = absurd h
    filter-Refines (r ∷ rs) (e ∷ mb) h = elim (Bool-cases (awaits recipient e)) [
      | inl w ↦ rw (is_waiting-IsRow e r h.0 recipient, w) (h.0, filter-Refines rs mb h.1)
      | inr w ↦ rw (is_waiting-IsRow e r h.0 recipient, w) (filter-Refines rs mb h.1)
    ]

  insert_by_time-Refines :
      (r : EnvelopeRow) (e : Entry) (rs : List EnvelopeRow) (mb : Mailbox)
      → IsRow payloads e r
      → Refines payloads rs mb
      → Refines payloads (insert_by_time r rs) (insert_entry e mb)
  unfolding insert_by_time
  insert_by_time-Refines r e [] [] i h = (i, tt)
  insert_by_time-Refines r e [] (f ∷ mb) i h = absurd h
  insert_by_time-Refines r e (q ∷ rs) [] i h = absurd h
  insert_by_time-Refines r e (q ∷ rs) (f ∷ mb) i h =
      let same : leb (signed_order r.timestamp_ns) (signed_order q.timestamp_ns)
          ≡ leb e.env.timestamp_ns f.env.timestamp_ns =
        rw (signed_order-IsRow e r i, signed_order-IsRow f q h.0) (ground arith) in
      elim (Bool-cases (leb e.env.timestamp_ns f.env.timestamp_ns)) [
        | inl le ↦ rw (same, le) (i, h)
        | inr gt ↦ rw (same, gt) (h.0, insert_by_time-Refines r e rs mb i h.1)
      ]

  order_by_time-Refines :
      (rs : List EnvelopeRow) (mb : Mailbox)
      → Refines payloads rs mb
      → Refines payloads (order_by_time rs) (oldest_first mb)
  unfolding order_by_time
  order_by_time-Refines [] [] h = tt
  order_by_time-Refines [] (e ∷ mb) h = absurd h
  order_by_time-Refines (r ∷ rs) [] h = absurd h
  order_by_time-Refines (r ∷ rs) (e ∷ mb) h =
      insert_by_time-Refines r e (order_by_time rs) (oldest_first mb) h.0
        (order_by_time-Refines rs mb h.1)

  envelopes_of-Refines :
      (rs : List EnvelopeRow) (mb : Mailbox)
      → Refines payloads rs mb
      → envelopes_of payloads rs ≡ ok (map (λ e. e.env) mb)
  unfolding envelopes_of
  envelopes_of-Refines [] [] h = refl
  envelopes_of-Refines [] (e ∷ mb) h = absurd h
  envelopes_of-Refines (r ∷ rs) [] h = absurd h
  envelopes_of-Refines (r ∷ rs) (e ∷ mb) h =
      rw (envelope_of-IsRow e r h.0, envelopes_of-Refines rs mb h.1) refl

  -- Rows in another order are the rows of entries in that order.
  Reordered-Refines :
      {rs' rs : List EnvelopeRow} (mb : Mailbox)
      → Reordered rs' rs
      → Refines payloads rs mb
      → (mb' : Mailbox) × Refines payloads rs' mb' × Reordered mb' mb
  Reordered-Refines [] nil h = ([], tt, nil)
  Reordered-Refines (e ∷ mb) nil h = absurd h
  Reordered-Refines [] (cons r p) h = absurd h
  Reordered-Refines (e ∷ mb) (cons r p) h =
      let (mb', same, q) = Reordered-Refines mb p h.1 in (e ∷ mb', (h.0, same), cons e q)
  Reordered-Refines [] (swap first second rows) h = absurd h
  Reordered-Refines (e ∷ []) (swap first second rows) h = absurd h.1
  Reordered-Refines (e ∷ f ∷ mb) (swap first second rows) h =
      (f ∷ e ∷ mb, (h.1.0, (h.0, h.1.1)), swap f e mb)
  Reordered-Refines mb (trans p q) h =
      let (middle, r, back) = Reordered-Refines mb q h in
      let (mb', r', back') = Reordered-Refines middle p r in (mb', r', trans back' back)

  insert_entry-Reordered : (e : Entry) (mb : Mailbox) → Reordered (insert_entry e mb) (e ∷ mb)
  insert_entry-Reordered e [] = Reordered-refl (e ∷ [])
  insert_entry-Reordered e (f ∷ mb) =
      elim (Bool-cases (leb e.env.timestamp_ns f.env.timestamp_ns)) [
        | inl le ↦ rw le (Reordered-refl (e ∷ f ∷ mb))
        | inr gt ↦ rw gt (trans (cons f (insert_entry-Reordered e mb)) (swap f e mb))
      ]

  oldest_first-Reordered : (mb : Mailbox) → Reordered (oldest_first mb) mb
  oldest_first-Reordered [] = nil
  oldest_first-Reordered (e ∷ mb) =
      trans (insert_entry-Reordered e (oldest_first mb)) (cons e (oldest_first-Reordered mb))

  All-insert_entry :
      (P : Entry → Type 0) (e : Entry) (mb : Mailbox) → P e → All P mb → All P (insert_entry e mb)
  All-insert_entry P e [] p ps = (p, tt)
  All-insert_entry P e (f ∷ mb) p ps =
      elim (Bool-cases (leb e.env.timestamp_ns f.env.timestamp_ns)) [
        | inl le ↦ rw le (p, ps)
        | inr gt ↦ rw gt (ps.0, All-insert_entry P e mb p ps.1)
      ]

  All-later :
      (m n : ℕ) (mb : Mailbox)
      → m ≤ n
      → All (λ f. n ≤ f.env.timestamp_ns) mb
      → All (λ f. m ≤ f.env.timestamp_ns) mb
  All-later m n [] l h = tt
  All-later m n (f ∷ mb) l h = (omega (arith, l, h.0), All-later m n mb l h.1)

  insert_entry-IsOldestFirst :
      (e : Entry) (mb : Mailbox) → IsOldestFirst mb → IsOldestFirst (insert_entry e mb)
  insert_entry-IsOldestFirst e [] h = (tt, tt)
  insert_entry-IsOldestFirst e (f ∷ mb) h =
      elim (Bool-cases (leb e.env.timestamp_ns f.env.timestamp_ns)) [
        | inl le ↦
            let before : e.env.timestamp_ns ≤ f.env.timestamp_ns = ground (arith, le) in
            rw le ((before, All-later e.env.timestamp_ns f.env.timestamp_ns mb before h.0), h)
        | inr gt ↦
            let after : f.env.timestamp_ns ≤ e.env.timestamp_ns = ground (arith, gt) in
            rw gt (
              All-insert_entry (λ g. f.env.timestamp_ns ≤ g.env.timestamp_ns) e mb after h.0,
              insert_entry-IsOldestFirst e mb h.1,
            )
      ]

  oldest_first-IsOldestFirst : (mb : Mailbox) → IsOldestFirst (oldest_first mb)
  oldest_first-IsOldestFirst [] = tt
  oldest_first-IsOldestFirst (e ∷ mb) =
      insert_entry-IsOldestFirst e (oldest_first mb) (oldest_first-IsOldestFirst mb)

  pub envelopes_of-waiting :
      (scan : Scan) (recipient : IdentityId) (rs : List EnvelopeRow) (mb : Mailbox)
      → Refines payloads rs mb
      → (out : Mailbox) × (envelopes_of payloads
            (order_by_time (scan.visit (filter (is_waiting recipient) rs)))
          ≡ ok (map (λ e. e.env) out))
        × Reordered out (waiting recipient mb)
        × IsOldestFirst out
  envelopes_of-waiting scan recipient rs mb h =
      let rows = filter (is_waiting recipient) rs in
      let (visited, r, p) =
        Reordered-Refines (waiting recipient mb) (scan.visit-Reordered rows)
          (filter-Refines recipient rs mb h) in
      (
        oldest_first visited,
        envelopes_of-Refines _ _ (order_by_time-Refines (scan.visit rows) visited r),
        trans (oldest_first-Reordered visited) p,
        oldest_first-IsOldestFirst visited,
      )

  has_id-holds :
      (id : Text) (rs : List EnvelopeRow) (mb : Mailbox)
      → Refines payloads rs mb
      → has_id id rs ≡ holds id mb
  has_id-holds id [] [] h = refl
  has_id-holds id [] (e ∷ mb) h = absurd h
  has_id-holds id (r ∷ rs) [] h = absurd h
  has_id-holds id (r ∷ rs) (e ∷ mb) h = rw (id-IsRow e r h.0, has_id-holds id rs mb h.1) refl

  append-Refines :
      (r : EnvelopeRow) (e : Entry) (rs : List EnvelopeRow) (mb : Mailbox)
      → IsRow payloads e r
      → Refines payloads rs mb
      → Refines payloads (rs ++ r ∷ []) (mb ++ e ∷ [])
  append-Refines r e [] [] i h = (i, tt)
  append-Refines r e [] (f ∷ mb) i h = absurd h
  append-Refines r e (q ∷ rs) [] i h = absurd h
  append-Refines r e (q ∷ rs) (f ∷ mb) i h = (h.0, append-Refines r e rs mb i h.1)

  pub insert_or_ignore-put :
      (env : Envelope) (payload : Bytes) (now : ℕ) (rs : List EnvelopeRow) (mb : Mailbox)
      → IsStorable env
      → payloads.to_vec env.payload ≡ some payload
      → Refines payloads rs mb
      → Refines payloads (insert_or_ignore (row_of env payload now) rs) (put env mb)
  unfolding insert_or_ignore row_of
  insert_or_ignore-put env payload now rs mb s p h =
      let fresh : Entry = record { env = env; is_delivered = false } in
      let i : IsRow payloads fresh (row_of env payload now) = record {
        storable = s;
        payload = p;
        row = refl;
      } in
      elim (Bool-cases (holds env.id mb)) [
        | inl old ↦ rw (has_id-holds env.id rs mb h, old) h
        | inr new ↦
            rw (has_id-holds env.id rs mb h, new)
              (append-Refines (row_of env payload now) fresh rs mb i h)
      ]

  mark_row-IsRow :
      (id : Text) (e : Entry) (r : EnvelopeRow)
      → IsRow payloads e r
      → IsRow payloads (mark_entry id e) (mark_row id r)
  unfolding row_of
  mark_row-IsRow id e r h =
      let same : (r.id == id) ≡ (e.env.id == id) = ap (λ t. t == id) (id-IsRow e r h) in
      elim (Bool-cases (e.env.id == id)) [
        | inl hit ↦
            rw (same ∙ hit, hit)
              (record {
                storable = h.storable;
                payload = h.payload;
                row = ap (λ (q : EnvelopeRow). record q { delivered = 1 }) h.row;
              })
        | inr other ↦ rw (same ∙ other, other) h
      ]

  pub mark-Refines :
      (id : Text) (rs : List EnvelopeRow) (mb : Mailbox)
      → Refines payloads rs mb
      → Refines payloads (map (mark_row id) rs) (mark id mb)
  mark-Refines id [] [] h = tt
  mark-Refines id [] (e ∷ mb) h = absurd h
  mark-Refines id (r ∷ rs) [] h = absurd h
  mark-Refines id (r ∷ rs) (e ∷ mb) h = (mark_row-IsRow id e r h.0, mark-Refines id rs mb h.1)
