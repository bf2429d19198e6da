-- ===== src/Storage/Sqlite/Spec.antt =====
-- aegis-mesh/crates/aegis-core/src/storage/sqlite.rs: the table of envelopes as a mailbox, which knows
-- nothing of rows.
pub mod Rows
pub mod Runs
use aegis_mesh.Base.{
  All, ℕ, ◌≤◌, ◌<◌, ◌^◌, ◌≡◌, Bool, true, false, not, ◌&&◌, ◌||◌, Option, none, some, List, [], ◌∷◌,
  ◌++◌, length, filter, map, leb, ◌==◌, nat_eq, list_eq, option_eq, if◌then◌else◌,
}
use aegis_mesh.Base.Text.{Text}
use aegis_mesh.Crypto.IdentityId.{IdentityId}
use aegis_mesh.Crypto.IdentityId
use aegis_mesh.Error.{ok}
use aegis_mesh.Json.{Json}
use aegis_mesh.Messaging.Envelope.{Envelope, IsTyped}
use aegis_mesh.Messaging.Envelope.Body.{Payload}
use aegis_mesh.Messaging.Envelope.Id
use aegis_mesh.Storage.Sqlite.{EnvelopeRow}
use aegis_mesh.Storage.Sqlite.Mail.{row_of}

pub record Entry : Type 0 where
  pub env : Envelope
  pub is_delivered : Bool

abbrev pub Mailbox : Type 0
Mailbox = List Entry

abbrev pub holds : Text → Mailbox → Bool
holds id [] = false
holds id (e ∷ mb) = e.env.id == id || holds id mb

-- The first envelope of an identifier is kept.
abbrev pub put : Envelope → Mailbox → Mailbox
put env mb = if holds env.id mb then mb else mb ++ record { env = env; is_delivered = false } ∷ []

abbrev pub mark_entry : Text → Entry → Entry
mark_entry id e = if e.env.id == id then record e { is_delivered = true } else e

abbrev pub mark : Text → Mailbox → Mailbox
mark id mb = map (mark_entry id) mb

abbrev pub insert_entry : Entry → Mailbox → Mailbox
insert_entry e [] = e ∷ []
insert_entry e (f ∷ mb) =
    if leb e.env.timestamp_ns f.env.timestamp_ns then e ∷ f ∷ mb else f ∷ insert_entry e mb

abbrev pub oldest_first : Mailbox → Mailbox
oldest_first [] = []
oldest_first (e ∷ mb) = insert_entry e (oldest_first mb)

abbrev pub awaits : IdentityId → Entry → Bool
awaits recipient e = e.env.recipient == some recipient && not e.is_delivered

-- The entries for the recipient that were not delivered.
abbrev pub waiting : IdentityId → Mailbox → Mailbox
waiting recipient mb = filter (awaits recipient) mb

-- The oldest first; entries of one time in any order.
abbrev pub IsOldestFirst : Mailbox → Type 0
IsOldestFirst [] = Unit
IsOldestFirst (e ∷ mb) = All (λ f. e.env.timestamp_ns ≤ f.env.timestamp_ns) mb × IsOldestFirst mb

-- The envelopes that a row can hold: of the current version, with identifiers as the parsers return
-- them, a signature of 64 bytes if any, and a time before the year 2262.
pub record IsStorable (env : Envelope) : Type 0 where
  pub typed : IsTyped env
  pub version : env.version ≡ 1
  pub id : Id.from_str env.id ≡ ok env.id
  pub sender : IdentityId.from_str env.sender ≡ ok env.sender
  pub recipient : (r : IdentityId) → env.recipient ≡ some r → IdentityId.from_str r ≡ ok r
  pub signature : (s : List ℕ) → env.signature ≡ some s → length s ≡ 64
  pub time : env.timestamp_ns < 2 ^ 63

-- A row of an entry, whenever it was received.
pub record IsRow (payloads : Json Payload) (e : Entry) (r : EnvelopeRow) : Type 0 where
  pub storable : IsStorable e.env
  pub payload : payloads.to_vec e.env.payload ≡ some r.payload
  pub row : r ≡ record (row_of e.env r.payload 0) {
    received_ns = r.received_ns;
    delivered = if e.is_delivered then 1 else 0;
  }

-- The rows of the table are those of the entries, one by one.
abbrev pub Refines : Json Payload → List EnvelopeRow → Mailbox → Type 0
Refines payloads [] [] = Unit
Refines payloads [] (e ∷ mb) = ⊥
Refines payloads (r ∷ rs) [] = ⊥
Refines payloads (r ∷ rs) (e ∷ mb) = IsRow payloads e r × Refines payloads rs mb
