-- ===== src/Storage/Sqlite/Mail.antt =====
-- aegis-mesh/crates/aegis-core/src/storage/sqlite.rs: envelopes and channels as rows. The JSON of a
-- payload and of the lists of identifiers is a parameter.
use aegis_mesh.Base.{
  ℕ, ◌%◌, Bool, false, not, ◌&&◌, ◌||◌, Option, none, some, List, [], ◌∷◌, ◌++◌, length, filter,
  leb, ◌==◌, nat_eq, list_eq, option_eq, if◌then◌else◌,
}
use aegis_mesh.Base.Map
use aegis_mesh.Base.Reorder.{Reordered}
use aegis_mesh.Base.Text.{Text, Bytes}
use aegis_mesh.Crypto.IdentityId
use aegis_mesh.Crypto.IdentityId.{IdentityId}
use aegis_mesh.Error.{Result, ok, err, ok_or, ◌>>=◌, storage, json, sqlite}
use aegis_mesh.Json.{Json}
use aegis_mesh.Messaging.Channel.{Channel}
use aegis_mesh.Messaging.Envelope.{Envelope, envelope_version, u64_mod}
use aegis_mesh.Messaging.Envelope.Body.{Payload}
use aegis_mesh.Messaging.Envelope.Id
use aegis_mesh.Messaging.Envelope.Kind
use aegis_mesh.Storage.Sqlite.{
  signed_order, EnvelopeRow, SqliteStore, Answers, is_succeeded, execute,
}

unfoldable pub row_of : Envelope → Bytes → ℕ → EnvelopeRow
row_of env payload now = record {
  id = env.id;
  kind = Kind.as_str env.kind;
  sender = env.sender;
  recipient = env.recipient;
  channel = env.channel;
  payload = payload;
  timestamp_ns = env.timestamp_ns % u64_mod;
  ttl = env.ttl;
  hops = env.hops;
  priority = env.priority;
  flags = env.flags;
  signature = env.signature;
  received_ns = now % u64_mod;
  delivered = 0;
}

abbrev pub has_id : Text → List EnvelopeRow → Bool
has_id id [] = false
has_id id (r ∷ rs) = r.id == id || has_id id rs

-- `INSERT OR IGNORE` under the primary key `id`
unfoldable pub insert_or_ignore : EnvelopeRow → List EnvelopeRow → List EnvelopeRow
insert_or_ignore row rows = if has_id row.id rows then rows else rows ++ row ∷ []

-- `ORDER BY timestamp_ns ASC`, of rows as the engine comes to them.
unfoldable pub insert_by_time : EnvelopeRow → List EnvelopeRow → List EnvelopeRow
insert_by_time r [] = r ∷ []
insert_by_time r (q ∷ qs) =
    if leb (signed_order r.timestamp_ns) (signed_order q.timestamp_ns)
    then r ∷ q ∷ qs
    else q ∷ insert_by_time r qs

unfoldable pub order_by_time : List EnvelopeRow → List EnvelopeRow
order_by_time [] = []
order_by_time (r ∷ rs) = insert_by_time r (order_by_time rs)

-- SQL leaves the order of rows of one time open: it is the order in which the engine comes to them, an
-- order of which only that it lists the rows is known.
pub record Scan : Type 0 where
  pub visit : List EnvelopeRow → List EnvelopeRow
  pub visit-Reordered : (rows : List EnvelopeRow) → Reordered (visit rows) rows

-- `WHERE recipient = ?1 AND delivered = 0`
abbrev pub is_waiting : IdentityId → EnvelopeRow → Bool
is_waiting recipient r = r.recipient == some recipient && r.delivered == 0

-- A signature that is not of 64 bytes is left out.
abbrev pub kept_signature : Option Bytes → Option Bytes
kept_signature none = none
kept_signature (some bytes) = if length bytes == 64 then some bytes else none

unfoldable pub parse_recipient : Option Text → Result (Option IdentityId)
parse_recipient none = ok none
parse_recipient (some r) = elim (IdentityId.from_str r) [
  | ok id ↦ ok (some id)
  | err e ↦ err storage
]

-- `map_err(|_| AegisError::Storage)`
abbrev pub or_storage : Result Text → Result Text
or_storage (ok s) = ok s
or_storage (err e) = err storage

module _ (payloads : Json Payload) where
  unfoldable pub envelope_of : EnvelopeRow → Result Envelope
  envelope_of r = do
    kind ← ok_or (Kind.from_str r.kind) storage
    payload ← ok_or (payloads.from_slice r.payload) json
    sender ← or_storage (IdentityId.from_str r.sender)
    recipient ← parse_recipient r.recipient
    id ← or_storage (Id.from_str r.id)
    ok (record {
      version = envelope_version;
      id = id;
      kind = kind;
      sender = sender;
      recipient = recipient;
      channel = r.channel;
      payload = payload;
      timestamp_ns = r.timestamp_ns % u64_mod;
      ttl = r.ttl % 256;
      hops = r.hops % 256;
      priority = r.priority % 256;
      flags = r.flags % 0x10000;
      signature = kept_signature r.signature;
    })

  unfoldable pub envelopes_of : List EnvelopeRow → Result (List Envelope)
  envelopes_of [] = ok []
  envelopes_of (r ∷ rs) = do env ← envelope_of r; envs ← envelopes_of rs; ok (env ∷ envs)

  unfoldable pub store_envelope :
      Answers → ℕ → Envelope → SqliteStore → SqliteStore × Result (Unit {0})
  store_envelope answers now env store =
      if answers.is_poisoned then (store, err storage) else elim (payloads.to_vec env.payload) [
        | none ↦ (store, err json)
        | some payload ↦
            execute answers.engine
              (λ t. record t { envelopes = insert_or_ignore (row_of env payload now) t.envelopes })
              store
      ]

  unfoldable pub undelivered_for :
      Scan → Answers → IdentityId → SqliteStore → Result (List Envelope)
  undelivered_for scan answers recipient store =
      if answers.is_poisoned
      then err storage
      else if not (is_succeeded answers.engine)
      then err sqlite
      else envelopes_of
          (order_by_time (scan.visit (filter (is_waiting recipient) store.current.envelopes)))

module _ (members : Json (Option (List Text))) (admins : Json (List Text)) where
  unfoldable pub store_channel : Answers → Channel → SqliteStore → SqliteStore × Result (Unit {0})
  store_channel answers ch store =
      if answers.is_poisoned then (store, err storage) else elim (members.to_vec ch.members) [
        | none ↦ (store, err json)
        | some members_blob ↦ elim (admins.to_vec ch.admins) [
          | none ↦ (store, err json)
          | some admins_blob ↦
              execute answers.engine
                (λ t. record t {
                  channels = Map.insert t.channels ch.id (record {
                    name = ch.name;
                    creator = ch.creator;
                    members = members_blob;
                    admins = admins_blob;
                    channel_key = ch.channel_key_wrapped;
                    created_ns = ch.created_ns % u64_mod;
                  });
                })
                store
        ]
      ]
