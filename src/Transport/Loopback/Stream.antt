-- ===== src/Transport/Loopback/Stream.antt =====
-- aegis-mesh/crates/aegis-core/src/transport/loopback.rs: what is read from a stream of frames.
use aegis_mesh.Base.{
  ℕ, zero, suc, ◌%◌, ◌^◌, ◌≤◌, ◌<◌, ◌≡◌, refl, ap, ◌∙◌, false, List, [], ◌∷◌, ◌++◌, arith, ltb,
  length, length-append, take-append, drop-append,
}
use mathlib.Core.List.{append_assoc}
use aegis_mesh.Base.Text.{Bytes, be_bytes, length-be_bytes}
use aegis_mesh.Base.BigEndian.{from_be_bytes-be_bytes}
use aegis_mesh.Error.{ok}
use aegis_mesh.Messaging.Envelope.{Envelope, IsTyped, max_envelope_size}
use aegis_mesh.Messaging.Envelope.Validate.{validate}
use aegis_mesh.Messaging.Envelope.Wire.{Codec, to_bytes, from_bytes, from_bytes-to_bytes}
use aegis_mesh.Transport.Loopback.{loopback_frame, received, client_loop, handle_client}

module _ (codec : Codec) where
  -- The bytes of some envelopes that a hub sends one after the other, all of them valid, with fields
  -- of their machine types and within the limit.
  pub data Sent : List Envelope → Bytes → Type 0 where
    none_sent : Sent [] []
    sent :
        (env : Envelope) (bytes : Bytes) (envs : List Envelope) (stream : Bytes)
        → IsTyped env
        → validate env ≡ ok tt
        → to_bytes codec env ≡ ok bytes
        → length bytes ≤ max_envelope_size
        → Sent envs stream
        → Sent (env ∷ envs) (loopback_frame bytes ++ stream)

  -- One turn on a frame.
  client_loop-frame :
      (fuel : ℕ) (bytes stream : Bytes)
      → length bytes ≤ max_envelope_size
      → client_loop codec (suc fuel) (be_bytes 4 (length bytes) ++ (bytes ++ stream))
        ≡ received codec bytes ++ client_loop codec fuel stream
  unfolding client_loop be_bytes
  client_loop-frame fuel bytes stream l =
      let n = length bytes in
      let whole : ltb (length (bytes ++ stream)) n ≡ false =
        ground (arith, length-append bytes stream) in
      let small : ltb max_envelope_size n ≡ false = ground arith in
      let header : ltb (length (be_bytes 4 n ++ (bytes ++ stream))) 4 ≡ false = ground arith in
      rw
        (
          from_be_bytes-be_bytes 4 n (omega arith),
          header,
          small,
          whole,
          take-append bytes stream,
          drop-append bytes stream,
        )
        refl

  received_lem :
      (env : Envelope) (bytes : Bytes)
      → from_bytes codec bytes ≡ ok env
      → received codec bytes ≡ env ∷ []
  unfolding received
  received_lem env bytes e = rw (e, received) refl

  client_loop_end : (fuel : ℕ) → client_loop codec (suc fuel) [] ≡ []
  unfolding client_loop
  client_loop_end fuel = refl

  client_loop-Sent :
      (fuel : ℕ) (envs : List Envelope) (stream : Bytes)
      → Sent envs stream
      → length stream < fuel
      → client_loop codec fuel stream ≡ envs
  unfolding loopback_frame
  client_loop-Sent zero _ _ s l = absurd (omega (arith, l))
  client_loop-Sent (suc fuel) _ _ none_sent l = client_loop_end fuel
  client_loop-Sent (suc fuel) _ _ (sent env bytes envs stream typed valid e small s) l =
      let width : length bytes % 2 ^ 32 ≡ length bytes = omega arith in
      let shape : loopback_frame bytes ++ stream ≡ be_bytes 4 (length bytes) ++ (bytes ++ stream) =
        ap (λ n. (be_bytes 4 n ++ bytes) ++ stream) width
        ∙ append_assoc (be_bytes 4 (length bytes)) bytes stream in
      let shorter : length stream < fuel = omega (
        arith,
        l,
        ap length shape,
        length-be_bytes 4 (length bytes),
        length-append (be_bytes 4 (length bytes)) (bytes ++ stream),
        length-append bytes stream,
      ) in
      ap (client_loop codec (suc fuel)) shape
      ∙ client_loop-frame fuel bytes stream small
      ∙ rw
          (
            received_lem env bytes (from_bytes-to_bytes codec env bytes typed valid e small),
            client_loop-Sent fuel envs stream s shorter,
          )
          refl

  -- From the frames that a hub sends, one after the other, a client reads exactly the envelopes that
  -- were sent, in their order, if all are valid, with fields of their machine types, and within the
  -- limit.
  pub handle_client-Sent :
      (envs : List Envelope) (stream : Bytes) → Sent envs stream → handle_client codec stream ≡ envs
  unfolding handle_client
  handle_client-Sent envs stream s =
      client_loop-Sent (suc (length stream)) envs stream s (omega arith)
