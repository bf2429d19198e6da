-- ===== src/Messaging/Envelope.antt =====
-- aegis-mesh/crates/aegis-core/src/messaging/envelope.rs: the message envelope, its constructors,
-- and the step that a relay takes on its hop counters. The clock is an argument `now`, in
-- nanoseconds since the epoch. Each constructor reads it twice, for the identifier and for the
-- time stamp.
pub mod Id
pub mod Flags
pub mod Kind
pub mod Body
pub mod Relay
pub mod Fresh
pub mod Validate
pub mod Wire
use aegis_mesh.Base.{
  ℕ, ◌+◌, ◌-◌, ◌%◌, ◌^◌, ◌<◌, Bool, true, false, Option, none, some, leb, ltb, ◌==◌, nat_eq, not,
  if◌then◌else◌,
}
use Prim.Native.Nat.{min}
use aegis_mesh.Base.Text.{Text, Bytes}
use aegis_mesh.Crypto.IdentityId.{IdentityId}
use Id.{EnvelopeId}
use Body.{Payload}
use Id
use Flags
use Flags.{EnvelopeFlags}
use Kind
use Kind.{EnvelopeType}

abbrev pub max_envelope_size : ℕ
max_envelope_size = 65536

abbrev pub envelope_version : ℕ
envelope_version = 1

abbrev pub u64_mod : ℕ
u64_mod = 2 ^ 64

pub record Envelope : Type 0 where
  pub version : ℕ
  pub id : EnvelopeId
  pub kind : EnvelopeType
  pub sender : IdentityId
  pub recipient : Option IdentityId
  pub channel : Option Text
  pub payload : Payload
  pub timestamp_ns : ℕ
  pub ttl : ℕ
  pub hops : ℕ
  pub priority : ℕ
  pub flags : EnvelopeFlags
  pub signature : Option Bytes

-- The two readings of the clock.
pub record Now : Type 0 where
  pub id_ns : ℕ
  pub stamp_ns : ℕ

-- `d.as_nanos() as u64`
abbrev pub now_ns : ℕ → ℕ
now_ns t = t % u64_mod

unfoldable pub direct_text : Now → IdentityId → IdentityId → Text → ℕ → Envelope
direct_text now sender recipient body ttl = record {
  version = envelope_version;
  id = Id.new now.id_ns;
  kind = EnvelopeType.direct;
  sender = sender;
  recipient = some recipient;
  channel = none;
  payload = Payload.text body;
  timestamp_ns = now_ns now.stamp_ns;
  ttl = ttl;
  hops = 0;
  priority = 2;
  flags = Flags.new;
  signature = none;
}

unfoldable pub channel_text : Now → IdentityId → Text → Text → ℕ → Envelope
channel_text now sender channel body ttl = record {
  version = envelope_version;
  id = Id.new now.id_ns;
  kind = EnvelopeType.channel;
  sender = sender;
  recipient = none;
  channel = some channel;
  payload = Payload.text body;
  timestamp_ns = now_ns now.stamp_ns;
  ttl = ttl;
  hops = 0;
  priority = 2;
  flags = Flags.new;
  signature = none;
}

unfoldable pub broadcast_text : Now → IdentityId → Text → ℕ → Envelope
broadcast_text now sender body ttl = record {
  version = envelope_version;
  id = Id.new now.id_ns;
  kind = EnvelopeType.broadcast;
  sender = sender;
  recipient = none;
  channel = none;
  payload = Payload.text body;
  timestamp_ns = now_ns now.stamp_ns;
  ttl = ttl;
  hops = 0;
  priority = 0;
  flags = Flags.new;
  signature = none;
}

unfoldable pub discovery : Now → IdentityId → Text → Bytes → Envelope
discovery now sender display_name verifying_key = record {
  version = envelope_version;
  id = Id.new now.id_ns;
  kind = EnvelopeType.peer_discovery;
  sender = sender;
  recipient = none;
  channel = none;
  payload = Payload.discovery display_name verifying_key;
  timestamp_ns = now_ns now.stamp_ns;
  ttl = 1;
  hops = 0;
  priority = 3;
  flags = Flags.new;
  signature = none;
}

unfoldable pub route_announce : Now → IdentityId → IdentityId → Bytes → ℕ → ℕ → ℕ → Envelope
route_announce now sender origin origin_verifying_key hop_count seq max_hops = record {
  version = envelope_version;
  id = Id.new now.id_ns;
  kind = EnvelopeType.route_announce;
  sender = sender;
  recipient = none;
  channel = none;
  payload = Payload.route_announce origin hop_count seq origin_verifying_key;
  timestamp_ns = now_ns now.stamp_ns;
  ttl = max_hops;
  hops = 0;
  priority = 3;
  flags = Flags.new;
  signature = none;
}

unfoldable pub receipt : Now → IdentityId → IdentityId → EnvelopeId → Bool → Envelope
receipt now sender recipient acked read = record {
  version = envelope_version;
  id = Id.new now.id_ns;
  kind = EnvelopeType.delivery_receipt;
  sender = sender;
  recipient = some recipient;
  channel = none;
  payload = Payload.receipt acked read;
  timestamp_ns = now_ns now.stamp_ns;
  ttl = 5;
  hops = 0;
  priority = 1;
  flags = Flags.new;
  signature = none;
}

-- The envelope after the call, and whether it may go on.
unfoldable pub advance_ttl : Envelope → ℕ → Envelope × Bool
advance_ttl env max_hops =
    if env.ttl == 0
    then (env, false)
    else if leb max_hops env.hops
    then (env, false)
    else (record env { ttl = env.ttl - 1; hops = min (env.hops + 1) 255 }, true)

-- The sums are those of `u64`, which wrap around.
unfoldable pub is_fresh : ℕ → Envelope → ℕ → ℕ → Bool
is_fresh now env max_age_ns max_skew_ns =
    if ltb ((now_ns now + max_skew_ns) % u64_mod) env.timestamp_ns
    then false
    else not (ltb ((env.timestamp_ns + max_age_ns) % u64_mod) (now_ns now))

-- The machine types of the fields.
pub record IsTyped (env : Envelope) : Type 0 where
  pub version : env.version < 256
  pub timestamp_ns : env.timestamp_ns < u64_mod
  pub ttl : env.ttl < 256
  pub hops : env.hops < 256
  pub priority : env.priority < 256
  pub flags : env.flags < 0x10000
