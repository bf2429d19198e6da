-- ===== src/Transport/Lora/Limits.antt =====
-- aegis-mesh/crates/aegis-core/src/transport/lora.rs: frames that are too large, and noise.
use aegis_mesh.Base.{ℕ, ◌+◌, ◌-◌, ◌^◌, ◌<◌, ◌≡◌, refl, ap, ◌∙◌, true, ◌++◌, arith, ltb, length}
use aegis_mesh.Base.Text.{Bytes, be_bytes}
use aegis_mesh.Transport.Lora.{max_packet, frame, turn, parse, encode_packet}
use aegis_mesh.Transport.Lora.Chunks.{frame-header, length-encode_packet}
use aegis_mesh.Transport.Lora.Frames.{turn-header, parse-resync}

-- `send` writes a frame for a payload of any size, but the parser takes none above 4091 bytes: it
-- skips the magic bytes and looks for others inside the frame and behind it.
pub parse-oversized :
    (sender : ℕ) (payload rest : Bytes)
    → max_packet - 5 < length payload
    → length payload + 5 < 2 ^ 32
    → let body = encode_packet sender 0xFFFFFFFF 0 payload in
      parse (frame body ++ rest) ≡ parse (be_bytes 4 (length body) ++ (body ++ rest))
parse-oversized sender payload rest large word =
    let body = encode_packet sender 0xFFFFFFFF 0 payload in
    let size = length-encode_packet sender payload in
    let big : ltb max_packet (length body) ≡ true = ground (arith, size, large) in
    let fits : length body < 2 ^ 32 = omega (arith, size, word) in
    parse-resync (frame body ++ rest) (be_bytes 4 (length body) ++ (body ++ rest)) (
      ap turn (frame-header body rest fits)
      ∙ turn-header (length body) (body ++ rest) fits
      ∙ rw big refl)
