-- ===== src/Transport/Tests.antt =====
-- The theorems on aegis-mesh/crates/aegis-core/src/transport at concrete values.
use aegis_mesh.Base.{List, true, some, concat, ◌≡◌, refl, [], ◌∷◌, arith, replicate, length}
use aegis_mesh.Base.Text.{Bytes, be_bytes}
use native.Mathlib.Decide.{ℕ_discrete}
use aegis_mesh.Error.{ok}
use aegis_mesh.Messaging.Envelope.Flags.{has_reserved}
use aegis_mesh.Messaging.Envelope.Validate.{validate, is_consistent, is_sized}
use aegis_mesh.Messaging.Envelope.Wire.{Codec, to_bytes}
use aegis_mesh.Samples.{
  message, message-IsTyped, table_codec, Envelope-discrete, EnvelopeType-discrete, Payload-discrete,
}
use aegis_mesh.Transport.Loopback.{loopback_frame, handle_client}
use aegis_mesh.Transport.Loopback.Stream.{Sent, none_sent, sent, handle_client-Sent}
use aegis_mesh.Messaging.Envelope.{Envelope}
use aegis_mesh.Transport.Ble.{drain_outgoing}
use aegis_mesh.Transport.Ble
use aegis_mesh.Transport.Ble.Queue.{newest, send_all, drain_outgoing-send_all}
use aegis_mesh.Transport.Lora.{encode_packet, frame, read_loop}
use aegis_mesh.Transport.Lora.Port
use aegis_mesh.Transport.Lora.Port.{no_payloads, payload, handed_on, read_loop-send_all}

abbrev large : Bytes
large = replicate 4092 b'x'

abbrev large_packet : Bytes
large_packet = encode_packet 1 0xFFFFFFFF 0 large

length-large : length large ≡ 4092
length-large = refl

validate-message : validate message ≡ ok tt
unfolding validate is_consistent is_sized has_reserved
validate-message = refl

abbrev one_codec : Codec
one_codec = table_codec (message ∷ [])

to_bytes-message : to_bytes one_codec message ≡ ok (0 ∷ [])
unfolding to_bytes Envelope-discrete ℕ_discrete EnvelopeType-discrete Payload-discrete
to_bytes-message = refl

message-Sent : Sent one_codec (message ∷ message ∷ []) (0 ∷ 0 ∷ 0 ∷ 1 ∷ 0 ∷ 0 ∷ 0 ∷ 0 ∷ 1 ∷ 0 ∷ [])
unfolding loopback_frame be_bytes
message-Sent =
    sent message (0 ∷ []) (message ∷ []) (0 ∷ 0 ∷ 0 ∷ 1 ∷ 0 ∷ []) message-IsTyped validate-message
      to_bytes-message (omega arith)
      (sent message (0 ∷ []) [] [] message-IsTyped validate-message to_bytes-message (omega arith)
        none_sent)

handle_client-Sent_example :
    handle_client one_codec (0 ∷ 0 ∷ 0 ∷ 1 ∷ 0 ∷ 0 ∷ 0 ∷ 0 ∷ 1 ∷ 0 ∷ []) ≡ message ∷ message ∷ []
handle_client-Sent_example =
    handle_client-Sent one_codec (message ∷ message ∷ [])
      (0 ∷ 0 ∷ 0 ∷ 1 ∷ 0 ∷ 0 ∷ 0 ∷ 0 ∷ 1 ∷ 0 ∷ []) message-Sent

-- Three hundred envelopes on a new transport.
abbrev many : List Envelope
many = replicate 300 message

drain_outgoing-send_all_example :
    ((drain_outgoing (send_all (Ble.start Ble.new) many)).1 ≡ newest many)
    × ((drain_outgoing (send_all (Ble.start Ble.new) many)).0.outgoing ≡ [])
unfolding Ble.new Ble.start
drain_outgoing-send_all_example = drain_outgoing-send_all (Ble.start Ble.new) many refl refl

abbrev one_frame : List Bytes
one_frame = (0x94 ∷ 0xC3 ∷ 0 ∷ 0 ∷ 0 ∷ []) ∷ (6 ∷ 0 ∷ 0 ∷ 0 ∷ 1 ∷ 0 ∷ 0 ∷ []) ∷ []

one_frame-written :
    (Port.send_all one_codec (Port.start true true (Port.new 1)) (message ∷ [])).port
    ≡ some (concat one_frame)
unfolding Port.send_all Port.start Port.new Port.send Port.write_all frame encode_packet be_bytes
    to_bytes Envelope-discrete ℕ_discrete EnvelopeType-discrete Payload-discrete
one_frame-written = refl

read_loop-send_all_example : handed_on one_codec (read_loop [] one_frame).0 ≡ message ∷ []
read_loop-send_all_example =
    read_loop-send_all one_codec 1 (message ∷ []) ((0 ∷ []) ∷ []) one_frame
      (payload message (0 ∷ []) [] [] message-IsTyped validate-message to_bytes-message
        (omega arith) no_payloads)
      one_frame-written
