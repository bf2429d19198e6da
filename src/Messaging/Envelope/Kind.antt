-- ===== src/Messaging/Envelope/Kind.antt =====
-- aegis-mesh/crates/aegis-core/src/messaging/envelope.rs: `EnvelopeType` and its names.
use aegis_mesh.Base.{
  ◌≡◌, refl, sym, ◌↔◌, arith, Option, none, some, ◌==◌, ==_iff, nat_eq, list_eq, if◌then◌else◌,
}
use aegis_mesh.Base.Text.{Text, codes}

pub data EnvelopeType : Type 0 where
  direct channel broadcast route_announce peer_discovery : EnvelopeType
  file_chunk voice_frame emergency_beacon delivery_receipt read_receipt : EnvelopeType

unfoldable pub as_str : EnvelopeType → Text
as_str direct = codes "direct"
as_str channel = codes "channel"
as_str broadcast = codes "broadcast"
as_str route_announce = codes "route_announce"
as_str peer_discovery = codes "peer_discovery"
as_str file_chunk = codes "file_chunk"
as_str voice_frame = codes "voice_frame"
as_str emergency_beacon = codes "emergency_beacon"
as_str delivery_receipt = codes "delivery_receipt"
as_str read_receipt = codes "read_receipt"

unfoldable pub from_str : Text → Option EnvelopeType
from_str s =
    if s == codes "direct"
    then some direct
    else if s == codes "channel"
    then some channel
    else if s == codes "broadcast"
    then some broadcast
    else if s == codes "route_announce"
    then some route_announce
    else if s == codes "peer_discovery"
    then some peer_discovery
    else if s == codes "file_chunk"
    then some file_chunk
    else if s == codes "voice_frame"
    then some voice_frame
    else if s == codes "emergency_beacon"
    then some emergency_beacon
    else if s == codes "delivery_receipt"
    then some delivery_receipt
    else if s == codes "read_receipt"
    then some read_receipt
    else none

print_parse : (k : EnvelopeType) → from_str (as_str k) ≡ some k
unfolding as_str from_str
print_parse direct = refl
print_parse _ = refl

parse_print : (s : Text) (k : EnvelopeType) → from_str s ≡ some k → as_str k ≡ s
unfolding as_str from_str
parse_print s k h = ground (
  arith,
  ==_iff s (codes "direct"),
  ==_iff s (codes "channel"),
  ==_iff s (codes "broadcast"),
  ==_iff s (codes "route_announce"),
  ==_iff s (codes "peer_discovery"),
  ==_iff s (codes "file_chunk"),
  ==_iff s (codes "voice_frame"),
  ==_iff s (codes "emergency_beacon"),
  ==_iff s (codes "delivery_receipt"),
  ==_iff s (codes "read_receipt"),
)

-- The names of the ten kinds parse to their kinds, and nothing else parses to a kind.
pub from_str-as_str : (s : Text) (k : EnvelopeType) → (from_str s ≡ some k) ↔ (s ≡ as_str k)
from_str-as_str s k = ((λ h. sym (parse_print s k h)), λ e. rw e (print_parse k))
