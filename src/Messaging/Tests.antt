-- ===== src/Messaging/Tests.antt =====
-- The theorems on aegis-mesh/crates/aegis-core/src/messaging at concrete messages.
use native.Mathlib.Decide.{ℕ_discrete}
use aegis_mesh.Base.{
  ℕ, ◌+◌, ◌≤◌, ◌≡◌, ◌↔◌, ◌⊎◌, refl, true, false, some, [], ◌∷◌, arith, nat_eq, list_eq,
}
use aegis_mesh.Base.Text.{Bytes, codes}
use aegis_mesh.Error.{ok, err, invalid}
use aegis_mesh.Messaging.Envelope.{Envelope, Now, advance_ttl}
use aegis_mesh.Messaging.Envelope.Relay.{
  Relayed, sent, hop, SameMessage, Relayed_bounds, Relayed_iff,
}
use aegis_mesh.Messaging.Envelope.Validate.{validate, IsValid, validate_iff}
use aegis_mesh.Messaging.Envelope.Flags.{with_signed}
use aegis_mesh.Messaging.Envelope.Wire.{signing_bytes, Codec, sign, verify}
use aegis_mesh.Messaging.Envelope.Wire.Signed.{verify-advance_ttl}
use aegis_mesh.Messaging.Channel
use aegis_mesh.Messaging.Channel.{
  Channel, is_member, is_admin, add_member, remove_member, derive_input, not_an_admin,
  cannot_remove_creator,
}
use aegis_mesh.Messaging.Channel.Members.{created, added, removed, IsChannel, Reachable-IsChannel}
use aegis_mesh.Samples.{
  alice, bob, message, message-IsTyped, plain_ed25519, plain_binding, plain_hash, table_codec,
  Envelope-discrete, EnvelopeType-discrete, Payload-discrete,
}

-- The message behind one relay.
abbrev relayed : Envelope
relayed = record message { ttl = 4; hops = 1 }

advance_ttl-message : advance_ttl message 5 ≡ (relayed, true)
unfolding advance_ttl
advance_ttl-message = refl

Relayed_bounds_example :
    (relayed.ttl + 1 ≡ message.ttl)
    × (relayed.hops ≡ message.hops + 1)
    × (relayed.hops ≤ 5)
    × SameMessage message relayed
unfolding advance_ttl
Relayed_bounds_example =
    Relayed_bounds {max_hops = 5} {n = 1} {a = message} {b = relayed} (omega arith) (omega arith)
      (hop (sent message) refl)

Relayed_iff_example :
    ((b : Envelope) × Relayed 5 3 message b) ↔ ((3 ≤ message.ttl) × (message.hops + 3 ≤ 5))
Relayed_iff_example = Relayed_iff 3 5 message (omega arith) (omega arith)

validate_iff_example :
    ((validate message ≡ ok tt) ↔ IsValid message)
    × ((validate message ≡ ok tt) ⊎ (validate message ≡ err invalid))
validate_iff_example = validate_iff message (omega arith)

abbrev noon : Now
noon = record { id_ns = 1_000_000_000_000; stamp_ns = 1_000_000_000_001 }

abbrev made_at : ℕ
made_at = 255

abbrev made_later : ℕ
made_later = 256

abbrev signed_bytes : Bytes
signed_bytes = 0 ∷ []

abbrev relayed_bytes : Bytes
relayed_bytes = 1 ∷ []

-- A format for the message once it is marked as signed, before a relay and behind it.
abbrev signed_codec : Codec
signed_codec = table_codec (record message { flags = 8 } ∷ record relayed { flags = 8 } ∷ [])

abbrev key : Bytes
key = 7 ∷ []

sign_message : (sign signed_codec plain_ed25519 message key).1 ≡ ok tt
unfolding sign signing_bytes with_signed Envelope-discrete ℕ_discrete EnvelopeType-discrete
    Payload-discrete
sign_message = refl

relay_signed : (advance_ttl (sign signed_codec plain_ed25519 message key).0 5).1 ≡ true
unfolding advance_ttl sign signing_bytes with_signed Envelope-discrete ℕ_discrete
    EnvelopeType-discrete Payload-discrete
relay_signed = refl

verify-advance_ttl_example :
    verify signed_codec plain_ed25519
      (advance_ttl (sign signed_codec plain_ed25519 message key).0 5).0
      key
    ≡ false
verify-advance_ttl_example =
    verify-advance_ttl signed_codec plain_ed25519 plain_binding message key 5 message-IsTyped
      sign_message relay_signed

-- A channel that Alice made, and Bob joined.
abbrev team : Channel
team = record {
  id = Channel.derive plain_hash (codes "team") alice;
  name = codes "team";
  creator = alice;
  members = some (alice ∷ bob ∷ []);
  admins = alice ∷ [];
  channel_key_wrapped = [];
  created_ns = 5;
}

Reachable-IsChannel_example :
    IsChannel plain_hash
      (remove_member
        (add_member (Channel.new plain_hash 5 (codes "team") alice []) alice bob).0
        alice
        bob).0
Reachable-IsChannel_example =
    let start = Channel.new plain_hash 5 (codes "team") alice [] in
    Reachable-IsChannel plain_hash (remove_member (add_member start alice bob).0 alice bob).0 (
      removed (add_member start alice bob).0 alice bob
        (added start alice bob (created 5 (codes "team") alice [])))
