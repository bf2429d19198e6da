-- ===== src/Storage/Tests.antt =====
-- The theorems on aegis-mesh/crates/aegis-core/src/storage at concrete values.
use native.Mathlib.Decide.{ℕ_discrete}
use aegis_mesh.Base.{map, inr, none, Option, ◌≡◌, ◌≢◌, ◌⊎◌, refl, false, some, List, [], ◌∷◌, arith}
use aegis_mesh.Base.Reorder.{Reordered, Reordered-refl}
use aegis_mesh.Base.Text.{Text, codes, all_hexdigits, to_lowercase}
use aegis_mesh.Crypto.IdentityId
use aegis_mesh.Error.{ok, err, sqlite}
use aegis_mesh.Json.{Json}
use aegis_mesh.Messaging.Envelope.Body.{Payload, text}
use aegis_mesh.Messaging.Envelope.Id
use aegis_mesh.Samples.{bob, message, message-IsTyped, table_json, Payload-discrete}
use aegis_mesh.Storage.Sqlite.{
  Tables, settled, new_tables, Engine, succeeded, failed, rolled_back, Answers, WipeAnswers, kv_set,
  execute, open_in_memory, begin_immediate, commit_all, vacuum, wipe,
}
use aegis_mesh.Storage.Sqlite.Mail.{Scan, undelivered_for, store_envelope, insert_or_ignore, row_of}
use aegis_mesh.Storage.Sqlite.Spec.{Entry, Mailbox, IsOldestFirst, IsStorable}
use aegis_mesh.Storage.Sqlite.Spec.Runs.{Call, stored, wiped, run, run_mailbox, undelivered_for-run}
use aegis_mesh.Storage.Sqlite.Wipe.{wipe_lem, wipe-kv_set}

abbrev fine : Answers
fine = record { is_poisoned = false; engine = succeeded }

abbrev failing : Answers
failing = record { is_poisoned = false; engine = rolled_back }

abbrev payloads : Json Payload
payloads = table_json Payload-discrete (text (104 ∷ 105 ∷ []) ∷ [])

message-IsStorable : IsStorable message
unfolding Id.from_str IdentityId.from_str all_hexdigits to_lowercase
message-IsStorable = record {
  typed = message-IsTyped;
  version = refl;
  id = refl;
  sender = refl;
  recipient = λ r e. bob_only r e;
  signature = λ s e. cc;
  time = omega arith;
}
  where
    bob_only : (r : Text) → some bob ≡ some r → IdentityId.from_str r ≡ ok r
    bob_only r e = let same : bob ≡ r = cc in rw (← same) refl

-- An engine that comes to the rows in their places.
abbrev in_place : Scan
in_place = record { visit = λ rows. rows; visit-Reordered = Reordered-refl }

abbrev members : Json (Option (List Text))
members = record { to_vec = λ ms. none; from_slice = λ b. none; round_trip = λ ms b e. cc }

abbrev admins : Json (List Text)
admins = record { to_vec = λ ms. none; from_slice = λ b. none; round_trip = λ ms b e. cc }

abbrev clean : WipeAnswers
clean = record {
  is_poisoned = false;
  begin = succeeded;
  delete_envelopes = succeeded;
  delete_peers = succeeded;
  delete_channels = succeeded;
  delete_kv_store = succeeded;
  commit = succeeded;
  vacuum = succeeded;
}

-- The message, which the engine refuses, a wipe, and then the message twice.
abbrev calls : List Call
calls =
    stored fine 4 message
    ∷ stored failing 5 message
    ∷ wiped clean
    ∷ stored fine 6 message
    ∷ stored fine 7 message
    ∷ []

abbrev unread : Entry
unread = record { env = message; is_delivered = false }

undelivered_for-run_example :
    (out : Mailbox) × (undelivered_for payloads in_place fine bob
        (run payloads members admins (settled new_tables) calls)
      ≡ ok (map (λ e. e.env) out))
    × Reordered out (unread ∷ [])
    × IsOldestFirst out
unfolding run_mailbox store_envelope execute Payload-discrete ℕ_discrete insert_or_ignore row_of
    wipe begin_immediate commit_all vacuum open_in_memory
undelivered_for-run_example =
    undelivered_for-run payloads members admins (settled new_tables) calls in_place bob refl (
      message-IsStorable,
      (
        message-IsStorable,
        (inr (inr (refl, refl)), (message-IsStorable, (message-IsStorable, tt))),
      ),
    )

-- A store with one value, and a wipe whose third deletion fails.
abbrev one_value : Tables
one_value = record new_tables { kv_store = (codes "a", 1 ∷ []) ∷ [] }

abbrev stuck : WipeAnswers
stuck = record clean { delete_channels = failed }

wipe_lem_example :
    (((wipe stuck (settled one_value)).1 ≡ ok tt)
      × ((wipe stuck (settled one_value)).0 ≡ settled new_tables))
    ⊎ (((wipe stuck (settled one_value)).1 ≢ ok tt)
        × ((wipe stuck (settled one_value)).0.committed ≡ one_value))
    ⊎ (((wipe stuck (settled one_value)).1 ≡ err sqlite)
        × (◌≢◌ {A = Engine} succeeded succeeded)
        × ((wipe stuck (settled one_value)).0 ≡ settled new_tables))
wipe_lem_example = wipe_lem stuck one_value

wipe-kv_set_example :
    ((wipe stuck (settled one_value)).1 ≡ err sqlite)
    × ((kv_set fine (codes "b") (2 ∷ []) (wipe stuck (settled one_value)).0).1 ≡ ok tt)
    × ((kv_set fine (codes "b") (2 ∷ []) (wipe stuck (settled one_value)).0).0.committed
        ≡ one_value)
wipe-kv_set_example = wipe-kv_set stuck one_value (codes "b") (2 ∷ []) refl refl refl
