-- ===== src/Messaging/Channel.antt =====
-- aegis-mesh/crates/aegis-core/src/messaging/channel.rs: channels with their members and admins,
-- and the identifier of a channel. The clock is an argument.
pub mod Members
pub mod Derive
use aegis_mesh.Base.{
  ℕ, Bool, true, false, not, ◌||◌, Option, none, some, List, [], ◌∷◌, ◌++◌, ◌%◌, ◌^◌, filter,
  length, contains, ◌==◌, nat_eq, list_eq, if◌then◌else◌,
}
use aegis_mesh.Base.Text.{Text, Bytes, be_bytes}
use aegis_mesh.Crypto.IdentityId.{IdentityId}
use aegis_mesh.Crypto.Primitives.{Hash}
use aegis_mesh.Messaging.Envelope.{now_ns}

-- The struct has one field, the text.
abbrev pub ChannelId : Type 0
ChannelId = Text

-- `b"aegis-channel-v1"`
abbrev pub domain : Bytes
domain =
    97 ∷ 101 ∷ 103 ∷ 105 ∷ 115 ∷ 45 ∷ 99 ∷ 104 ∷ 97 ∷ 110 ∷ 110 ∷ 101 ∷ 108 ∷ 45 ∷ 118 ∷ 49 ∷ []

-- The bytes that the hasher reads. The length of the name is taken as an `u32`.
unfoldable pub derive_input : Text → IdentityId → Bytes
derive_input name creator = domain ++ (be_bytes 4 (length name % 2 ^ 32) ++ (name ++ creator))

unfoldable pub derive : Hash → Text → IdentityId → ChannelId
derive hash name creator = hash.hex_encode (hash.sha256 (derive_input name creator))

pub record Channel : Type 0 where
  pub id : ChannelId
  pub name : Text
  pub creator : IdentityId
  pub members : Option (List IdentityId)
  pub admins : List IdentityId
  pub channel_key_wrapped : Bytes
  pub created_ns : ℕ

unfoldable pub new : Hash → ℕ → Text → IdentityId → Bytes → Channel
new hash now name creator channel_key_wrapped = record {
  id = derive hash name creator;
  name = name;
  creator = creator;
  members = some (creator ∷ []);
  admins = creator ∷ [];
  channel_key_wrapped = channel_key_wrapped;
  created_ns = now_ns now;
}

unfoldable pub is_member : Channel → IdentityId → Bool
is_member ch id = elim ch.members [ none ↦ true | some list ↦ contains list id ]

unfoldable pub is_admin : Channel → IdentityId → Bool
is_admin ch id = contains ch.admins id || ch.creator == id

-- The two error texts.
pub data ChannelError : Type 0 where
  not_an_admin cannot_remove_creator : ChannelError

-- What the methods return beside the channel: `None` for `Ok(())`.
abbrev pub Outcome : Type 0
Outcome = Channel × Option ChannelError

unfoldable pub push_member : List IdentityId → IdentityId → List IdentityId
push_member list member = if contains list member then list else list ++ member ∷ []

unfoldable pub add_member : Channel → IdentityId → IdentityId → Outcome
add_member ch admin member =
    if not (is_admin ch admin) then (ch, some not_an_admin) else elim ch.members [
      | none ↦ (ch, none)
      | some list ↦ (record ch { members = some (push_member list member) }, none)
    ]

unfoldable pub remove_member : Channel → IdentityId → IdentityId → Outcome
remove_member ch admin member =
    if not (is_admin ch admin)
    then (ch, some not_an_admin)
    else if member == ch.creator
    then (ch, some cannot_remove_creator)
    else elim ch.members [
      | none ↦ (ch, none)
      | some list ↦ (record ch { members = some (filter (λ m. not (m == member)) list) }, none)
    ]
