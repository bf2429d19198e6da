-- ===== src/Messaging/Envelope/Validate.antt =====
-- aegis-mesh/crates/aegis-core/src/messaging/envelope.rs: `validate`, and what it accepts.
use aegis_mesh.Base.{
  ℕ, ◌≤◌, ◌<◌, ◌≡◌, refl, ◌↔◌, ◌⊎◌, Bool, true, false, not, ◌&&◌, Option, none, some, arith, ltb,
  length, ◌==◌, nat_eq,
}
use aegis_mesh.Base.Text.{Text, Bytes}
use aegis_mesh.Crypto.IdentityId.{IdentityId}
use aegis_mesh.Error.{Result, ok, err, ◌>>◌, ensure, invalid}
use aegis_mesh.Messaging.Envelope.Flags.{has_reserved, has_reserved_iff}
use aegis_mesh.Messaging.Envelope.Id.{EnvelopeId}
use aegis_mesh.Messaging.Envelope.Kind.{
  EnvelopeType, direct, channel, broadcast, route_announce, peer_discovery, file_chunk, voice_frame,
  emergency_beacon, delivery_receipt, read_receipt,
}
use aegis_mesh.Messaging.Envelope.{Envelope, Now, envelope_version, advance_ttl}
use aegis_mesh.Messaging.Envelope

abbrev is_none {ℓ} : {A : Type ℓ} → Option A → Bool
is_none none = true
is_none (some a) = false

-- The match on the kind: whether the recipient and the channel fit it.
unfoldable pub is_consistent : EnvelopeType → Option IdentityId → Option Text → Bool
is_consistent direct r c = not (is_none r) && is_none c
is_consistent channel r c = is_none r && not (is_none c)
is_consistent broadcast r c = is_none r && is_none c
is_consistent peer_discovery r c = is_none r && is_none c
is_consistent route_announce r c = is_none r && is_none c
is_consistent emergency_beacon r c = is_none r && is_none c
is_consistent file_chunk r c = true
is_consistent voice_frame r c = true
is_consistent delivery_receipt r c = true
is_consistent read_receipt r c = true

unfoldable pub is_sized : Option IdentityId → Bool
is_sized none = true
is_sized (some r) = length r == 64

unfoldable pub validate : Envelope → Result (Unit {0})
validate env = do
  ensure (env.version == envelope_version) invalid
  ensure (not (ltb 4 env.priority)) invalid
  ensure (is_consistent env.kind env.recipient env.channel) invalid
  ensure (not (has_reserved env.flags)) invalid
  ensure (length env.sender == 64) invalid
  ensure (is_sized env.recipient) invalid
  ok tt

-- How an envelope of a kind is addressed.
abbrev pub IsAddressed : EnvelopeType → Option IdentityId → Option Text → Type 0
IsAddressed direct r c = ((to : IdentityId) × (r ≡ some to)) × (c ≡ none)
IsAddressed channel r c = (r ≡ none) × ((name : Text) × (c ≡ some name))
IsAddressed broadcast r c = (r ≡ none) × (c ≡ none)
IsAddressed peer_discovery r c = (r ≡ none) × (c ≡ none)
IsAddressed route_announce r c = (r ≡ none) × (c ≡ none)
IsAddressed emergency_beacon r c = (r ≡ none) × (c ≡ none)
IsAddressed file_chunk r c = Unit
IsAddressed voice_frame r c = Unit
IsAddressed delivery_receipt r c = Unit
IsAddressed read_receipt r c = Unit

pub record IsValid (env : Envelope) : Type 0 where
  pub version : env.version ≡ 1
  pub priority : env.priority ≤ 4
  pub addressed : IsAddressed env.kind env.recipient env.channel
  pub flags : env.flags < 16
  pub sender : length env.sender ≡ 64
  pub recipient : (to : IdentityId) → env.recipient ≡ some to → length to ≡ 64

is_consistent_sound :
    (k : EnvelopeType) (r : Option IdentityId) (c : Option Text)
    → is_consistent k r c ≡ true
    → IsAddressed k r c
unfolding is_consistent
is_consistent_sound direct r c h = ground arith
is_consistent_sound channel r c h = ground arith
is_consistent_sound broadcast r c h = ground arith
is_consistent_sound peer_discovery r c h = ground arith
is_consistent_sound route_announce r c h = ground arith
is_consistent_sound emergency_beacon r c h = ground arith
is_consistent_sound _ r c h = tt

is_consistent_complete :
    (k : EnvelopeType) (r : Option IdentityId) (c : Option Text)
    → IsAddressed k r c
    → is_consistent k r c ≡ true
unfolding is_consistent
is_consistent_complete direct r c h = ground arith
is_consistent_complete channel r c h = ground arith
is_consistent_complete broadcast r c h = ground arith
is_consistent_complete peer_discovery r c h = ground arith
is_consistent_complete route_announce r c h = ground arith
is_consistent_complete emergency_beacon r c h = ground arith
is_consistent_complete _ r c h = refl

is_sized_sound :
    (r : Option IdentityId) → is_sized r ≡ true → (to : IdentityId) → r ≡ some to → length to ≡ 64
unfolding is_sized
is_sized_sound none h to e = cc
is_sized_sound (some r) h to e = ground arith

is_sized_complete :
    (r : Option IdentityId) → ((to : IdentityId) → r ≡ some to → length to ≡ 64) → is_sized r ≡ true
unfolding is_sized
is_sized_complete none h = refl
is_sized_complete (some r) h = rw (h r refl) refl

pub record Passes (env : Envelope) : Type 0 where
  pub version : env.version ≡ 1
  pub priority : env.priority ≤ 4
  pub consistent : is_consistent env.kind env.recipient env.channel ≡ true
  pub flags : has_reserved env.flags ≡ false
  pub sender : length env.sender ≡ 64
  pub sized : is_sized env.recipient ≡ true

pub validate-Passes : (env : Envelope) → validate env ≡ ok tt → Passes env
unfolding validate
validate-Passes env h = ground arith

Passes-validate : (env : Envelope) → Passes env → validate env ≡ ok tt
unfolding validate
Passes-validate env p = ground arith

fails_invalid : (env : Envelope) → (validate env ≡ ok tt) ⊎ (validate env ≡ err invalid)
unfolding validate
fails_invalid env = ground arith

-- `validate` accepts exactly the envelopes of version 1 with a priority up to 4, addressed as their
-- kind asks, with no reserved flag bit, and with identifiers of 64 bytes. It fails in one way only.
pub validate_iff :
    (env : Envelope)
    → env.flags < 0x10000
    → ((validate env ≡ ok tt) ↔ IsValid env)
      × ((validate env ≡ ok tt) ⊎ (validate env ≡ err invalid))
validate_iff env typed = ((sound, complete), only_invalid)
  where
    sound : validate env ≡ ok tt → IsValid env
    sound h =
        let p = validate-Passes env h in
        record {
          version = p.version;
          priority = p.priority;
          addressed = is_consistent_sound env.kind env.recipient env.channel p.consistent;
          flags = (has_reserved_iff env.flags typed).0 p.flags;
          sender = p.sender;
          recipient = is_sized_sound env.recipient p.sized;
        }

    complete : IsValid env → validate env ≡ ok tt
    complete v = Passes-validate env (record {
      version = v.version;
      priority = v.priority;
      consistent = is_consistent_complete env.kind env.recipient env.channel v.addressed;
      flags = (has_reserved_iff env.flags typed).1 v.flags;
      sender = v.sender;
      sized = is_sized_complete env.recipient v.recipient;
    })

    only_invalid : (validate env ≡ ok tt) ⊎ (validate env ≡ err invalid)
    only_invalid = fails_invalid env

-- A relay that passes an envelope on leaves it as valid as it was.
pub validate-advance_ttl :
    (env : Envelope) (max_hops : ℕ) → validate (advance_ttl env max_hops).0 ≡ validate env
unfolding validate advance_ttl
validate-advance_ttl env max_hops = ground arith

-- With 64-byte identifiers every constructor makes a valid envelope, and so does a relay from it.
pub constructors-validate :
    (now : Now) (sender recipient : IdentityId) (name body : Text) (key : Bytes)
    (origin : IdentityId) (hop_count seq ttl max_hops : ℕ) (acked : EnvelopeId) (read : Bool)
    → length sender ≡ 64
    → length recipient ≡ 64
    → (validate (Envelope.direct_text now sender recipient body ttl) ≡ ok tt)
      × (validate (Envelope.channel_text now sender name body ttl) ≡ ok tt)
      × (validate (Envelope.broadcast_text now sender body ttl) ≡ ok tt)
      × (validate (Envelope.discovery now sender name key) ≡ ok tt)
      × (validate (Envelope.route_announce now sender origin key hop_count seq max_hops) ≡ ok tt)
      × (validate (Envelope.receipt now sender recipient acked read) ≡ ok tt)
unfolding validate is_consistent is_sized has_reserved Envelope.direct_text Envelope.channel_text
    Envelope.broadcast_text Envelope.discovery Envelope.route_announce Envelope.receipt
constructors-validate now sender recipient name body key origin hop_count seq ttl max_hops acked
      read s r =
    (rw (s, r), rw s, rw s, rw s, rw s, rw (s, r))
