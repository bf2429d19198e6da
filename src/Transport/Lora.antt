-- ===== src/Transport/Lora.antt =====
-- aegis-mesh/crates/aegis-core/src/transport/lora.rs: the frames of the LoRa transport, as `send`
-- writes them and as the read loop takes them apart. The serial port is the sequence of the chunks
-- that its reads return; `Envelope::from_bytes` is applied to the payloads.
pub mod Frames
pub mod Chunks
pub mod Limits
pub mod Port
use mathlib.Core.Option
use aegis_mesh.Base.{
  ℕ, zero, suc, ◌+◌, ◌%◌, ◌^◌, Bool, true, false, ◌&&◌, Option, none, some, List, [], ◌∷◌, ◌++◌,
  ltb, leb, length, take, drop, ◌==◌, nat_eq, if◌then◌else◌,
}
use aegis_mesh.Base.Text.{Bytes, be_bytes}
use aegis_mesh.Base.BigEndian.{from_be_bytes}

abbrev pub mesh_magic : Bytes
mesh_magic = 0x94 ∷ 0xC3 ∷ []

abbrev pub max_packet : ℕ
max_packet = 4096

-- The recipient is not part of the packet.
unfoldable pub encode_packet : ℕ → ℕ → ℕ → Bytes → Bytes
encode_packet sender to channel payload = be_bytes 4 sender ++ channel ∷ payload

-- What `send` writes to the port. The length is taken as an `u32`.
unfoldable pub frame : Bytes → Bytes
frame packet = mesh_magic ++ (be_bytes 4 (length packet % 2 ^ 32) ++ packet)

-- `windows(2).position(|w| w == MESH_MAGIC)`
unfoldable pub find_magic : Bytes → Option ℕ
find_magic [] = none
find_magic (x ∷ []) = none
find_magic (x ∷ y ∷ bs) =
    let rest = find_magic (y ∷ bs) in if x == 0x94 && y == 0xC3 then some 0 else Option.map suc rest

-- One turn of the inner loop: `break` with the buffer, `continue` with the buffer, or a packet and
-- the buffer after it.
pub data Turn : Type 0 where
  stop resync : Bytes → Turn
  packet : Bytes → Bytes → Turn

-- From a buffer that starts with the magic bytes.
unfoldable pub take_packet : Bytes → Turn
take_packet buffer =
    if ltb (length buffer) 6
    then stop buffer
    else (let len = from_be_bytes (take 4 (drop 2 buffer)) in
        if ltb max_packet len
        then resync (drop 2 buffer)
        else if ltb (length buffer) (6 + len)
        then stop buffer
        else packet (take len (drop 6 buffer)) (drop (6 + len) buffer))

unfoldable pub turn : Bytes → Turn
turn buffer =
    if ltb (length buffer) 6
    then stop buffer
    else elim (find_magic buffer) [ none ↦ stop [] | some pos ↦ take_packet (drop pos buffer) ]

-- The payload of a packet, after the node and the channel.
unfoldable pub payload_of : Bytes → List Bytes
payload_of body = if leb 5 (length body) then drop 5 body ∷ [] else []

-- The inner loop: the payloads in the order they are handed on, and the buffer that is left. Each
-- turn but the last shortens the buffer, so its length is enough fuel.
unfoldable pub parse_loop : ℕ → Bytes → List Bytes × Bytes
parse_loop zero buffer = ([], buffer)
parse_loop (suc fuel) buffer = elim (turn buffer) [
  | stop left ↦ ([], left)
  | resync left ↦ parse_loop fuel left
  | packet body left ↦
      let (payloads, rest) = parse_loop fuel left in (payload_of body ++ payloads, rest)
]

unfoldable pub parse : Bytes → List Bytes × Bytes
parse buffer = parse_loop (suc (length buffer)) buffer

-- The read loop over the chunks of the port, from a buffer. An empty chunk is a read that timed
-- out or failed.
unfoldable pub read_loop : Bytes → List Bytes → List Bytes × Bytes
read_loop buffer [] = ([], buffer)
read_loop buffer ([] ∷ chunks) = read_loop buffer chunks
read_loop buffer ((b ∷ bs) ∷ chunks) =
    let (payloads, left) = parse (buffer ++ b ∷ bs) in
    let (more, rest) = read_loop left chunks in (payloads ++ more, rest)
