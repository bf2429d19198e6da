-- ===== src/Transport/Lora/Chunks.antt =====
-- aegis-mesh/crates/aegis-core/src/transport/lora.rs: the read loop over a stream of frames that
-- the port cuts into chunks.
use aegis_mesh.Base.{
  ℕ, ◌+◌, ◌-◌, ◌%◌, ◌^◌, ◌≤◌, ◌<◌, ◌≡◌, refl, sym, ap, ◌∙◌, true, false, List, [], ◌∷◌, ◌++◌, map,
  arith, ltb, ltb→lt, ltb→ge, length, drop, All, concat, length-append, append-split, take-append,
  drop-append, Bool-cases, inl, inr,
}
use mathlib.Core.Path.{subst}
use mathlib.Core.List.{append_assoc, append-nil}
use aegis_mesh.Base.Text.{Bytes, be_bytes, length-be_bytes}
use aegis_mesh.Transport.Lora.{
  max_packet, encode_packet, frame, stop, packet, turn, payload_of, parse, read_loop,
}
use aegis_mesh.Transport.Lora.Frames.{header, turn-header, turn_short, parse-stop, parse-packet}

-- A packet that the parser accepts.
abbrev pub IsPacket : Bytes → Type 0
IsPacket body = length body ≤ max_packet

length-frame : (body : Bytes) → length (frame body) ≡ 6 + length body
unfolding frame be_bytes
length-frame body = ground arith

pub frame-header :
    (body rest : Bytes)
    → length body < 2 ^ 32
    → frame body ++ rest ≡ header (length body) ++ (body ++ rest)
unfolding frame be_bytes
frame-header body rest h =
    let small : length body % 2 ^ 32 ≡ length body = omega arith in rw small refl

pub turn-frame : (body rest : Bytes) → IsPacket body → turn (frame body ++ rest) ≡ packet body rest
turn-frame body rest h =
    let small : ltb max_packet (length body) ≡ false = ground arith in
    let complete : ltb (length (body ++ rest)) (length body) ≡ false =
      ground (arith, length-append body rest) in
    ap turn (frame-header body rest (omega (arith, h)))
    ∙ turn-header (length body) (body ++ rest) (omega arith)
    ∙ rw (small, complete, take-append body rest, drop-append body rest) refl

-- A part of a frame waits for more.
turn-partial :
    (buffer more body rest : Bytes)
    → IsPacket body
    → length buffer < length (frame body)
    → buffer ++ more ≡ frame body ++ rest
    → turn buffer ≡ stop buffer
turn-partial buffer more body rest h l e = elim (Bool-cases (ltb (length buffer) 6)) [
  | inl short ↦ turn_short buffer (ltb→lt (length buffer) 6 short)
  | inr long ↦
      let six : length (header (length body)) ≡ 6 =
        omega (arith, length-be_bytes 4 (length body)) in
      let enough : length (header (length body)) ≤ length buffer =
        omega (arith, six, ltb→ge (length buffer) 6 long) in
      let parts =
        append-split buffer more (header (length body)) (body ++ rest) enough
          (e ∙ frame-header body rest (omega (arith, h))) in
      let tail = drop (length (header (length body))) buffer in
      let size = ap length parts.0 ∙ length-append (header (length body)) tail in
      let waits : ltb (length tail) (length body) ≡ true =
        ground (arith, size, six, l, length-frame body) in
      let small : ltb max_packet (length body) ≡ false = ground arith in
      ap turn parts.0
      ∙ turn-header (length body) tail (omega arith)
      ∙ rw (small, waits) (ap stop (sym parts.0))
]

module _ (sender : ℕ) where
  -- What `send` writes for the bytes of an envelope, to everyone on channel 0.
  abbrev pub sent : Bytes → Bytes
  sent payload = frame (encode_packet sender 0xFFFFFFFF 0 payload)

  -- The envelope fits a packet.
  abbrev pub Fits : Bytes → Type 0
  Fits payload = length payload ≤ max_packet - 5

  abbrev pub stream : List Bytes → Bytes
  stream payloads = concat (map sent payloads)

  pub length-encode_packet :
      (payload : Bytes) → length (encode_packet sender 0xFFFFFFFF 0 payload) ≡ 5 + length payload
  unfolding encode_packet be_bytes
  length-encode_packet payload = ground arith

  payload_of-encode_packet :
      (payload : Bytes) → payload_of (encode_packet sender 0xFFFFFFFF 0 payload) ≡ payload ∷ []
  unfolding encode_packet be_bytes payload_of
  payload_of-encode_packet payload = ground arith

  Fits-IsPacket :
      (payload : Bytes) → Fits payload → IsPacket (encode_packet sender 0xFFFFFFFF 0 payload)
  Fits-IsPacket payload f = omega (arith, length-encode_packet payload, f)

  -- The payload of a frame comes out, and the parser goes on behind it.
  pub parse-sent :
      (payload rest : Bytes)
      → Fits payload
      → parse (sent payload ++ rest) ≡ (payload ∷ (parse rest).0, (parse rest).1)
  parse-sent payload rest f =
      let body = encode_packet sender 0xFFFFFFFF 0 payload in
      parse-packet (sent payload ++ rest) body rest (turn-frame body rest (Fits-IsPacket payload f))
      ∙ ap (λ ps. (ps ++ (parse rest).0, (parse rest).1)) (payload_of-encode_packet payload)

  -- The buffer is shorter than the frame that is to come.
  abbrev Waits : Bytes → List Bytes → Type 0
  Waits buffer [] = Unit
  Waits buffer (p ∷ ps) = length buffer < length (sent p)

  -- The parser takes some payloads out, and the buffer that it leaves waits for the others.
  abbrev Progress : Bytes → List Bytes → List Bytes × Bytes → Type 0
  Progress more payloads (out, left) =
      (todo : List Bytes) × (out ++ todo ≡ payloads)
      × (left ++ more ≡ stream todo)
      × Waits left todo
      × All Fits todo

  parse-stream :
      (payloads : List Bytes) (buffer more : Bytes)
      → All Fits payloads
      → buffer ++ more ≡ stream payloads
      → Progress more payloads (parse buffer)
  parse-stream [] [] more f e =
      rw (parse-stop [] [] (turn_short [] (omega arith))) ([], refl, e, tt, tt)
  parse-stream [] (b ∷ bs) more f e = absurd (omega (arith, ap length e))
  parse-stream (p ∷ ps) buffer more f e =
      elim (Bool-cases (ltb (length buffer) (length (sent p)))) [
        | inl short ↦
            let l = ltb→lt (length buffer) (length (sent p)) short in
            let body = encode_packet sender 0xFFFFFFFF 0 p in
            let waits = turn-partial buffer more body (stream ps) (Fits-IsPacket p f.0) l e in
            rw (parse-stop buffer buffer waits) (p ∷ ps, refl, e, l, f)
        | inr long ↦
            let l = ltb→ge (length buffer) (length (sent p)) long in
            let parts = append-split buffer more (sent p) (stream ps) l e in
            let left = drop (length (sent p)) buffer in
            let (todo, out, same, waits, fits) = parse-stream ps left more f.1 parts.1 in
            subst (Progress more (p ∷ ps)) (sym (ap parse parts.0 ∙ parse-sent p left f.0))
              (todo, ap (◌∷◌ p) out, same, waits, fits)
      ]

  read_loop-waiting :
      (chunks : List Bytes) (payloads : List Bytes) (buffer : Bytes)
      → All Fits payloads
      → Waits buffer payloads
      → buffer ++ concat chunks ≡ stream payloads
      → read_loop buffer chunks ≡ (payloads, [])
  unfolding read_loop
  read_loop-waiting [] [] buffer f w e = ap (λ b. ([], b)) (sym (append-nil buffer) ∙ e)
  read_loop-waiting [] (p ∷ ps) buffer f w e = absurd (
      omega (arith, ap length (sym (append-nil buffer) ∙ e), length-append (sent p) (stream ps), w))
  read_loop-waiting ([] ∷ chunks) payloads buffer f w e =
      read_loop-waiting chunks payloads buffer f w e
  read_loop-waiting ((b ∷ bs) ∷ chunks) payloads buffer f w e =
      let whole = append_assoc buffer (b ∷ bs) (concat chunks) ∙ e in
      let (todo, out, same, waits, fits) =
        parse-stream payloads (buffer ++ b ∷ bs) (concat chunks) f whole in
      let (payloads_out, left) = parse (buffer ++ b ∷ bs) in
      ap (λ r. (payloads_out ++ r.0, r.1)) (read_loop-waiting chunks todo left fits waits same)
      ∙ ap (λ ps. (ps, [])) out

  -- However the port cuts a stream of frames into chunks, the read loop hands on exactly the
  -- payloads that were sent, in their order, and its buffer is empty at the end.
  pub read_loop-stream :
      (payloads chunks : List Bytes)
      → All Fits payloads
      → concat chunks ≡ stream payloads
      → read_loop [] chunks ≡ (payloads, [])
  read_loop-stream [] chunks f e = read_loop-waiting chunks [] [] f tt e
  read_loop-stream (p ∷ ps) chunks f e =
      read_loop-waiting chunks (p ∷ ps) [] f
        (omega (arith, length-frame (encode_packet sender 0xFFFFFFFF 0 p))) e
