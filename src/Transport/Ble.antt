-- ===== src/Transport/Ble.antt =====
-- aegis-mesh/crates/aegis-core/src/transport/ble.rs: the bridge to the radio, with its bounded queue
-- of outgoing envelopes. What is received is handed to a broadcast channel, here a result.
pub mod Queue
use aegis_mesh.Base.{
  ℕ, ◌-◌, Bool, true, false, not, List, [], ◌∷◌, ◌++◌, ltb, leb, length, drop, if◌then◌else◌,
}
use aegis_mesh.Base.Text.{Bytes}
use aegis_mesh.Error.{Result, ok, err, invalid, transport}
use aegis_mesh.Messaging.Envelope.{Envelope, max_envelope_size}
use aegis_mesh.Messaging.Envelope.Wire.{Codec, from_bytes}

abbrev pub max_outgoing : ℕ
max_outgoing = 256

pub record BleTransport : Type 0 where
  pub outgoing : List Envelope
  pub started : Bool

unfoldable pub new : BleTransport
new = record { outgoing = []; started = false }

-- The envelope that the call broadcasts.
unfoldable pub inject_incoming : Codec → Bytes → Result Envelope
inject_incoming codec bytes =
    if ltb max_envelope_size (length bytes) then err invalid else from_bytes codec bytes

unfoldable pub start : BleTransport → BleTransport
start ble = record ble { started = true }

unfoldable pub stop : BleTransport → BleTransport
stop ble = record ble { started = false }

unfoldable pub send : BleTransport → Envelope → BleTransport × Result Bool
send ble env =
    if not ble.started
    then (ble, err transport)
    else (let q =
          if leb max_outgoing (length ble.outgoing) then drop 1 ble.outgoing else ble.outgoing in
        (record ble { outgoing = q ++ env ∷ [] }, ok true))

unfoldable pub drain_outgoing : BleTransport → BleTransport × List Envelope
drain_outgoing ble =
    let q = ble.outgoing in
    let kept = if ltb max_outgoing (length q) then drop (length q - max_outgoing) q else q in
    (record ble { outgoing = [] }, kept)
