-- ===== src/Storage/Sqlite.antt =====
-- aegis-mesh/crates/aegis-core/src/storage/sqlite.rs: the database of a node. A table is the list of
-- its rows, and each SQL statement of the file is a function on the tables. The clock is an argument,
-- and so is what the mutex and the engine answer. A statement that fails changes nothing by itself, but
-- the engine may roll the open transaction back with it.
pub mod Mail
pub mod Spec
pub mod Wipe
use aegis_mesh.Base.{
  ℕ, ◌+◌, ◌%◌, ◌^◌, Bool, true, false, not, ◌&&◌, Option, none, some, List, [], ◌∷◌, ◌++◌, length,
  filter, map, leb, ◌==◌, nat_eq, list_eq, option_eq, contains, if◌then◌else◌,
}
use aegis_mesh.Base.Map
use aegis_mesh.Base.Map.{Map}
use aegis_mesh.Base.Text.{Text, Bytes, codes}
use aegis_mesh.Crypto.IdentityId
use aegis_mesh.Crypto.IdentityId.{IdentityId}
use aegis_mesh.Error.{Result, ok, err, ok_or, ◌>>=◌, ◌>>◌, AegisError, storage, json, sqlite}
use aegis_mesh.Json.{Json}
use aegis_mesh.Messaging.Channel.{Channel}
use aegis_mesh.Messaging.Envelope.{Envelope, envelope_version, u64_mod}
use aegis_mesh.Messaging.Envelope.Body.{Payload}
use aegis_mesh.Messaging.Envelope.Id
use aegis_mesh.Messaging.Envelope.Kind

-- An `INTEGER` is an `i64`, and stands here as its bit pattern. The order of two patterns is that of
-- the patterns with the sign bit turned over.
abbrev pub I64 : Type 0
I64 = ℕ

abbrev pub signed_order : I64 → ℕ
signed_order n = (n + 2 ^ 63) % u64_mod

pub record EnvelopeRow : Type 0 where
  pub id : Text
  pub kind : Text
  pub sender : Text
  pub recipient : Option Text
  pub channel : Option Text
  pub payload : Bytes
  pub timestamp_ns : I64
  pub ttl : I64
  pub hops : I64
  pub priority : I64
  pub flags : I64
  pub signature : Option Bytes
  pub received_ns : I64
  pub delivered : I64

pub record ChannelRow : Type 0 where
  pub name : Text
  pub creator : Text
  pub members : Bytes
  pub admins : Bytes
  pub channel_key : Bytes
  pub created_ns : I64

-- The tables of the schema; no method writes a row of `peers`, and only the schema's version stands
-- in `schema_meta`.
pub record Tables : Type 0 where
  pub envelopes : List EnvelopeRow
  pub peers : List Text
  pub channels : Map Text ChannelRow
  pub kv_store : Map Text Bytes
  pub schema_meta : Map Text Text

-- The tables that the schema makes.
abbrev pub new_tables : Tables
new_tables = record {
  envelopes = [];
  peers = [];
  channels = [];
  kv_store = [];
  schema_meta = (codes "version", codes "1") ∷ [];
}

-- `INSERT OR IGNORE` of the version
abbrev with_version : Map Text Text → Map Text Text
with_version meta = elim (Map.get meta (codes "version")) [
  | none ↦ Map.insert meta (codes "version") (codes "1")
  | some version ↦ meta
]

-- The tables as the connection sees them, and as they are on the disk: the two differ only inside a
-- transaction.
pub record SqliteStore : Type 0 where
  pub current : Tables
  pub committed : Tables
  pub in_transaction : Bool

abbrev pub settled : Tables → SqliteStore
settled t = record { current = t; committed = t; in_transaction = false }

-- How a statement goes. On some errors (a full disk, an I/O error, no memory, an interrupt) the engine
-- also rolls back the transaction that is open.
pub data Engine : Type 0 where
  succeeded failed rolled_back : Engine

abbrev pub is_succeeded : Engine → Bool
is_succeeded succeeded = true
is_succeeded _ = false

-- What the mutex and the engine answer to a method.
pub record Answers : Type 0 where
  pub is_poisoned : Bool
  pub engine : Engine

unfoldable pub open_in_memory : Bool → Result SqliteStore
open_in_memory is_done = if is_done then ok (settled new_tables) else err sqlite

-- The schema is made only where it is missing.
unfoldable pub open_file : Bool → Tables → Result SqliteStore
open_file is_done tables =
    if is_done
    then ok (settled (record tables { schema_meta = with_version tables.schema_meta }))
    else err sqlite

abbrev pub roll_back : SqliteStore → SqliteStore
roll_back store = settled store.committed

unfoldable pub execute : Engine → (Tables → Tables) → SqliteStore → SqliteStore × Result (Unit {0})
execute succeeded change store =
    let after = change store.current in
    (
      record store {
        current = after;
        committed = if store.in_transaction then store.committed else after;
      },
      ok tt,
    )
execute failed change store = (store, err sqlite)
execute rolled_back change store = (roll_back store, err sqlite)

unfoldable pub kv_set : Answers → Text → Bytes → SqliteStore → SqliteStore × Result (Unit {0})
kv_set answers key value store =
    if answers.is_poisoned
    then (store, err storage)
    else execute answers.engine (λ t. record t { kv_store = Map.insert t.kv_store key value }) store

unfoldable pub kv_get : Answers → Text → SqliteStore → Result (Option Bytes)
kv_get answers key store =
    if answers.is_poisoned
    then err storage
    else if is_succeeded answers.engine
    then ok (Map.get store.current.kv_store key)
    else err sqlite

unfoldable pub kv_delete : Answers → Text → SqliteStore → SqliteStore × Result (Unit {0})
kv_delete answers key store =
    if answers.is_poisoned
    then (store, err storage)
    else execute answers.engine (λ t. record t { kv_store = Map.remove t.kv_store key }) store

-- `UPDATE envelopes SET delivered = 1 WHERE id = ?1`, on one row.
abbrev pub mark_row : Text → EnvelopeRow → EnvelopeRow
mark_row id r = if r.id == id then record r { delivered = 1 } else r

unfoldable pub mark_delivered : Answers → Text → SqliteStore → SqliteStore × Result (Unit {0})
mark_delivered answers id store =
    if answers.is_poisoned
    then (store, err storage)
    else execute answers.engine (λ t. record t { envelopes = map (mark_row id) t.envelopes }) store

-- The statements of `wipe` in their order. One that fails ends the method there, and leaves a
-- transaction open that was begun, unless the engine rolls it back.
pub record WipeAnswers : Type 0 where
  pub is_poisoned : Bool
  pub begin : Engine
  pub delete_envelopes : Engine
  pub delete_peers : Engine
  pub delete_channels : Engine
  pub delete_kv_store : Engine
  pub commit : Engine
  pub vacuum : Engine

-- `BEGIN IMMEDIATE` fails inside a transaction.
unfoldable pub begin_immediate : Engine → SqliteStore → SqliteStore × Result (Unit {0})
begin_immediate succeeded store =
    if store.in_transaction
    then (store, err sqlite)
    else (record store { in_transaction = true }, ok tt)
begin_immediate failed store = (store, err sqlite)
begin_immediate rolled_back store = (roll_back store, err sqlite)

unfoldable pub commit_all : Engine → SqliteStore → SqliteStore × Result (Unit {0})
commit_all succeeded store =
    if not store.in_transaction
    then (store, err sqlite)
    else (record store { committed = store.current; in_transaction = false }, ok tt)
commit_all failed store = (store, err sqlite)
commit_all rolled_back store = (roll_back store, err sqlite)

unfoldable pub vacuum : Engine → SqliteStore → SqliteStore × Result (Unit {0})
vacuum succeeded store = (store, ok tt)
vacuum failed store = (store, err sqlite)
vacuum rolled_back store = (roll_back store, err sqlite)

-- The next statement, if the one before succeeded.
infixl 5 ◌▷◌
abbrev pub ◌▷◌ :
    SqliteStore × Result (Unit {0})
    → (SqliteStore → SqliteStore × Result (Unit {0}))
    → SqliteStore × Result (Unit {0})
(store, ok done) ▷ next = next store
(store, err e) ▷ next = (store, err e)

-- The deletion from a table that the schema does not have fails, and its failure is ignored.
unfoldable pub wipe : WipeAnswers → SqliteStore → SqliteStore × Result (Unit {0})
wipe a store =
    if a.is_poisoned
    then (store, err storage)
    else begin_immediate a.begin store
      ▷ execute a.delete_envelopes (λ t. record t { envelopes = [] })
      ▷ execute a.delete_peers (λ t. record t { peers = [] })
      ▷ execute a.delete_channels (λ t. record t { channels = [] })
      ▷ execute a.delete_kv_store (λ t. record t { kv_store = [] })
      ▷ commit_all a.commit
      ▷ vacuum a.vacuum
