-- ===== src/Transport/Loopback.antt =====
-- aegis-mesh/crates/aegis-core/src/transport/loopback.rs: the frames on the sockets of a hub, and the
-- list of its writers. A socket is the bytes that it gives before its end; `written` says which
-- writes succeed.
pub mod Stream
pub mod Hub
use aegis_mesh.Base.{
  ℕ, zero, suc, ◌+◌, ◌%◌, ◌^◌, Bool, true, false, List, [], ◌∷◌, ◌++◌, ltb, length, take, drop,
  filter, if◌then◌else◌,
}
use aegis_mesh.Base.Text.{Bytes, be_bytes}
use aegis_mesh.Base.BigEndian.{from_be_bytes}
use aegis_mesh.Error.{Result, ok, err}
use aegis_mesh.Messaging.Envelope.{Envelope, max_envelope_size}
use aegis_mesh.Messaging.Envelope.Wire.{Codec, to_bytes, from_bytes}

-- The length is taken as an `u32`.
unfoldable pub loopback_frame : Bytes → Bytes
loopback_frame bytes = be_bytes 4 (length bytes % 2 ^ 32) ++ bytes

module _ (codec : Codec) where
  -- The writers are numbered in the order of their connections.
  unfoldable pub broadcast : (ℕ → Bytes → Bool) → List ℕ → Envelope → List ℕ × Result Bool
  broadcast written write_halfs env = elim (to_bytes codec env) [
    | err e ↦ (write_halfs, err e)
    | ok bytes ↦
        let kept = filter (λ wh. written wh (loopback_frame bytes)) write_halfs in
        if ltb 0 (length write_halfs)
        then (kept, ok (ltb 0 (length kept)))
        else (write_halfs, ok false)
  ]

  unfoldable pub received : Bytes → List Envelope
  received payload = elim (from_bytes codec payload) [ ok env ↦ env ∷ [] | err e ↦ [] ]

  -- The loop of a client: the envelopes that it hands on, in order. Each turn takes four bytes or
  -- more, so the length of what is left is enough fuel.
  unfoldable pub client_loop : ℕ → Bytes → List Envelope
  client_loop zero stream = []
  client_loop (suc fuel) stream =
      let len = from_be_bytes (take 4 stream) in
      let payload = take len (drop 4 stream) in
      let rest = client_loop fuel (drop len (drop 4 stream)) in
      if ltb (length stream) 4
      then []
      else if ltb max_envelope_size len
      then []
      else if ltb (length (drop 4 stream)) len
      then []
      else received payload ++ rest

  unfoldable pub handle_client : Bytes → List Envelope
  handle_client stream = client_loop (suc (length stream)) stream
