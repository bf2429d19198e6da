-- ===== src/Transport/Lora/Frames.antt =====
-- aegis-mesh/crates/aegis-core/src/transport/lora.rs: the parser on frames.
use aegis_mesh.Base.{
  ℕ, zero, suc, ◌+◌, ◌^◌, ◌≤◌, ◌<◌, ◌≡◌, refl, ap, ◌∙◌, false, List, [], ◌++◌, arith, ltb, length,
  take, drop, length-drop, length-append, drop-add, Bool-cases, Option-cases, inl, inr, nat_eq,
  if◌then◌else◌,
}
use mathlib.Core.Path.{subst}
use aegis_mesh.Base.Text.{Bytes, be_bytes, length-be_bytes}
use aegis_mesh.Base.BigEndian.{from_be_bytes, from_be_bytes-be_bytes}
use aegis_mesh.Transport.Lora.{
  mesh_magic, max_packet, find_magic, Turn, stop, resync, packet, take_packet, turn, payload_of,
  parse_loop, parse,
}

-- The magic bytes and the length.
abbrev pub header : ℕ → Bytes
header n = mesh_magic ++ be_bytes 4 n

turn-magic :
    (rest : Bytes) → 4 ≤ length rest → turn (mesh_magic ++ rest) ≡ take_packet (mesh_magic ++ rest)
unfolding turn find_magic
turn-magic rest h =
    let long : ltb (length (mesh_magic ++ rest)) 6 ≡ false = ground arith in rw long refl

take_packet-header :
    (n : ℕ) (rest : Bytes)
    → n < 2 ^ 32
    → take_packet (header n ++ rest) ≡ (
        if ltb max_packet n
        then resync (be_bytes 4 n ++ rest)
        else if ltb (length rest) n
        then stop (header n ++ rest)
        else packet (take n rest) (drop n rest))
unfolding take_packet be_bytes
take_packet-header n rest h =
    let buffer = header n ++ rest in
    let long : ltb (length buffer) 6 ≡ false = ground arith in
    let complete : ltb (length buffer) (6 + n) ≡ ltb (length rest) n = ground arith in
    rw (long, from_be_bytes-be_bytes 4 n h, complete, drop-add 6 n buffer) refl

-- On a buffer that starts with a header, a turn takes the packet when all of it is there, waits when
-- it is not, and skips the magic bytes when the length is too large.
pub turn-header :
    (n : ℕ) (rest : Bytes)
    → n < 2 ^ 32
    → turn (header n ++ rest) ≡ (
        if ltb max_packet n
        then resync (be_bytes 4 n ++ rest)
        else if ltb (length rest) n
        then stop (header n ++ rest)
        else packet (take n rest) (drop n rest))
turn-header n rest h =
    turn-magic (be_bytes 4 n ++ rest)
      (omega (arith, length-be_bytes 4 n, length-append (be_bytes 4 n) rest))
    ∙ take_packet-header n rest h

-- Fewer than six bytes wait for more.
pub turn_short : (buffer : Bytes) → length buffer < 6 → turn buffer ≡ stop buffer
unfolding turn
turn_short buffer h = ground arith

-- Every turn that goes on shortens the buffer.
abbrev pub Shortens : ℕ → Turn → Type 0
Shortens n (stop left) = Unit
Shortens n (resync left) = length left < n
Shortens n (packet body left) = length left < n

Shortens-le : (m n : ℕ) (t : Turn) → m ≤ n → Shortens m t → Shortens n t
Shortens-le m n (stop left) l h = tt
Shortens-le m n (resync left) l h = omega (arith, l, h)
Shortens-le m n (packet body left) l h = omega (arith, l, h)

take_packet-Shortens : (buffer : Bytes) → Shortens (length buffer) (take_packet buffer)
unfolding take_packet
take_packet-Shortens buffer =
    let len = from_be_bytes (take 4 (drop 2 buffer)) in
    ground (arith, length-drop 2 buffer, length-drop (6 + len) buffer)

turn-Shortens : (buffer : Bytes) → Shortens (length buffer) (turn buffer)
unfolding turn
turn-Shortens buffer = elim (Bool-cases (ltb (length buffer) 6)) [
  | inl short ↦ rw short tt
  | inr long ↦ rw long (elim (Option-cases (find_magic buffer)) [
    | inl h ↦ rw h tt
    | inr (pos, h) ↦ rw h (
        Shortens-le (length (drop pos buffer)) (length buffer) _
          (omega (arith, length-drop pos buffer)) (take_packet-Shortens (drop pos buffer)))
  ])
]

-- What the loop does after a turn.
abbrev after_turn : ℕ → Turn → List Bytes × Bytes
after_turn fuel t = elim t [
  | stop left ↦ ([], left)
  | resync left ↦ parse_loop fuel left
  | packet body left ↦
      let (payloads, rest) = parse_loop fuel left in (payload_of body ++ payloads, rest)
]

abbrev Stable : ℕ → ℕ → Type 0
Stable f g =
    (buffer : Bytes)
    → length buffer < f
    → length buffer < g
    → parse_loop f buffer ≡ parse_loop g buffer

after_turn-Stable :
    (f g n : ℕ) (t : Turn)
    → Stable f g
    → n ≤ f
    → n ≤ g
    → Shortens n t
    → after_turn f t ≡ after_turn g t
after_turn-Stable f g n (stop left) same lf lg h = refl
after_turn-Stable f g n (resync left) same lf lg h = same left (omega arith) (omega arith)
after_turn-Stable f g n (packet body left) same lf lg h =
    ap (λ r. (payload_of body ++ r.0, r.1)) (same left (omega arith) (omega arith))

parse_loop-Stable : (f g : ℕ) → Stable f g
unfolding parse_loop
parse_loop-Stable zero g buffer lf lg = absurd (omega arith)
parse_loop-Stable (suc f) zero buffer lf lg = absurd (omega arith)
parse_loop-Stable (suc f) (suc g) buffer lf lg =
    after_turn-Stable f g (length buffer) (turn buffer) (parse_loop-Stable f g) (omega arith)
      (omega arith) (turn-Shortens buffer)

-- With fuel above the length of the buffer the loop does not depend on the fuel: it ends by its
-- own `break`.
pub parse_loop-parse :
    (fuel : ℕ) (buffer : Bytes) → length buffer < fuel → parse_loop fuel buffer ≡ parse buffer
unfolding parse
parse_loop-parse fuel buffer h = parse_loop-Stable fuel (suc (length buffer)) buffer h (omega arith)

parse-after_turn : (buffer : Bytes) → parse buffer ≡ after_turn (length buffer) (turn buffer)
unfolding parse parse_loop
parse-after_turn buffer = refl

-- The buffer waits.
pub parse-stop : (buffer left : Bytes) → turn buffer ≡ stop left → parse buffer ≡ ([], left)
parse-stop buffer left h = parse-after_turn buffer ∙ ap (after_turn (length buffer)) h

pub parse-packet :
    (buffer body left : Bytes)
    → turn buffer ≡ packet body left
    → parse buffer ≡ (let (payloads, rest) = parse left in (payload_of body ++ payloads, rest))
parse-packet buffer body left h =
    let shorter : Shortens (length buffer) (packet body left) =
      subst (Shortens (length buffer)) h (turn-Shortens buffer) in
    parse-after_turn buffer
    ∙ ap (after_turn (length buffer)) h
    ∙ ap (λ r. (payload_of body ++ r.0, r.1)) (parse_loop-parse (length buffer) left shorter)

pub parse-resync : (buffer left : Bytes) → turn buffer ≡ resync left → parse buffer ≡ parse left
parse-resync buffer left h =
    let shorter : Shortens (length buffer) (resync left) =
      subst (Shortens (length buffer)) h (turn-Shortens buffer) in
    parse-after_turn buffer
    ∙ ap (after_turn (length buffer)) h
    ∙ parse_loop-parse (length buffer) left shorter
