-- ===== src/Transport/Lora/Port.antt =====
-- aegis-mesh/crates/aegis-core/src/transport/lora.rs: the transport from its start to its stop, and
-- what another node receives of its sends. An open port is the bytes that were written to it; whether
-- it opens and how a write goes is an argument. `std_serial` is the feature of the build.
use mathlib.Core.List.{append_assoc, append-nil}
use aegis_mesh.Base.{
  ℕ, ◌-◌, ◌≤◌, ◌≡◌, refl, sym, ap, ◌∙◌, Bool, true, false, Option, none, some, List, [], ◌∷◌, ◌++◌,
  length, concat, All, arith, if◌then◌else◌,
}
use aegis_mesh.Base.Text.{Bytes}
use aegis_mesh.Config.{WriteAnswer, refused, torn, written}
use aegis_mesh.Error.{Result, ok, err, transport}
use aegis_mesh.Messaging.Envelope.{Envelope, IsTyped}
use aegis_mesh.Messaging.Envelope.Validate.{validate}
use aegis_mesh.Messaging.Envelope.Wire.{Codec, to_bytes, from_bytes, from_bytes-to_bytes}
use aegis_mesh.Transport.Lora.{max_packet, frame, encode_packet, read_loop}
use aegis_mesh.Transport.Lora.Chunks.{stream, Fits, read_loop-stream}

pub record LoRaTransport : Type 0 where
  pub port : Option Bytes
  pub our_node_id : ℕ
  pub started : Bool

unfoldable pub new : ℕ → LoRaTransport
new node = record { port = none; our_node_id = node; started = false }

-- A port that does not open leaves the transport without one; it counts as started all the same.
unfoldable pub start : Bool → Bool → LoRaTransport → LoRaTransport
start std_serial opens lora =
    if std_serial
    then (if opens
        then record lora { port = some []; started = true }
        else record lora { started = true })
    else record lora { started = true }

unfoldable pub stop : LoRaTransport → LoRaTransport
stop lora = record lora { port = none; started = false }

unfoldable pub write_all : WriteAnswer → Bytes → Bytes → Bytes × Result Bool
write_all refused port bytes = (port, err transport)
write_all (torn part) port bytes = (port ++ part, err transport)
write_all written port bytes = (port ++ bytes, ok true)

module _ (codec : Codec) where
  -- Without a port the answer is `true` as well.
  unfoldable pub send : WriteAnswer → Envelope → LoRaTransport → LoRaTransport × Result Bool
  send w env lora = elim (to_bytes codec env) [
    | err e ↦ (lora, err e)
    | ok bytes ↦ elim lora.port [
      | none ↦ (lora, ok true)
      | some port ↦
          let (after, reply) =
            write_all w port (frame (encode_packet lora.our_node_id 0xFFFFFFFF 0 bytes)) in
          (record lora { port = some after }, reply)
    ]
  ]

  -- What is handed on of the payloads.
  unfoldable pub handed_on : List Bytes → List Envelope
  handed_on [] = []
  handed_on (payload ∷ payloads) =
      let rest = handed_on payloads in
      elim (from_bytes codec payload) [ ok env ↦ env ∷ rest | err e ↦ rest ]

  -- Envelopes that are valid, with fields of their machine types, and their bytes, which fit a packet.
  pub data Payloads : List Envelope → List Bytes → Type 0 where
    no_payloads : Payloads [] []
    payload :
        (env : Envelope) (bytes : Bytes) (envs : List Envelope) (payloads : List Bytes)
        → IsTyped env
        → validate env ≡ ok tt
        → to_bytes codec env ≡ ok bytes
        → length bytes ≤ max_packet - 5
        → Payloads envs payloads
        → Payloads (env ∷ envs) (bytes ∷ payloads)

  -- Sends whose writes succeed.
  unfoldable pub send_all : LoRaTransport → List Envelope → LoRaTransport
  send_all lora [] = lora
  send_all lora (env ∷ envs) = send_all (send written env lora).0 envs

  send-written :
      (node : ℕ) (started : Bool) (port bytes : Bytes) (env : Envelope)
      → to_bytes codec env ≡ ok bytes
      → (send written env (record { port = some port; our_node_id = node; started = started })).0
        ≡ record {
          port = some (port ++ frame (encode_packet node 0xFFFFFFFF 0 bytes));
          our_node_id = node;
          started = started;
        }
  unfolding send write_all
  send-written node started port bytes env e = ground (arith, e)

  port-send_all :
      (node : ℕ) (started : Bool) (port : Bytes) (envs : List Envelope) (payloads : List Bytes)
      → Payloads envs payloads
      → (send_all (record { port = some port; our_node_id = node; started = started }) envs).port
        ≡ some (port ++ stream node payloads)
  unfolding send_all
  port-send_all node started port _ _ no_payloads = ap some (sym (append-nil port))
  port-send_all node started port _ _ (payload env bytes envs payloads typed valid e small ps) =
      let sent = frame (encode_packet node 0xFFFFFFFF 0 bytes) in
      ap (λ l. (send_all l envs).port) (send-written node started port bytes env e)
      ∙ port-send_all node started (port ++ sent) envs payloads ps
      ∙ ap some (append_assoc port sent (stream node payloads))

  handed_on-Payloads :
      (node : ℕ) (envs : List Envelope) (payloads : List Bytes)
      → Payloads envs payloads
      → (handed_on payloads ≡ envs) × All (Fits node) payloads
  unfolding handed_on
  handed_on-Payloads node _ _ no_payloads = (refl, tt)
  handed_on-Payloads node _ _ (payload env bytes envs payloads typed valid e small ps) =
      let (rest, fit) = handed_on-Payloads node envs payloads ps in
      let read = from_bytes-to_bytes codec env bytes typed valid e (omega arith) in
      (ground (arith, read, rest), (small, fit))

  -- What a node writes to its open port for some envelopes, another node receives as exactly these
  -- envelopes, in their order, however its port cuts the bytes into chunks: if the envelopes are
  -- valid, with fields of their machine types, and their bytes are no more than 4091 each.
  pub read_loop-send_all :
      (node : ℕ) (envs : List Envelope) (payloads chunks : List Bytes)
      → Payloads envs payloads
      → (send_all (start true true (new node)) envs).port ≡ some (concat chunks)
      → handed_on (read_loop [] chunks).0 ≡ envs
  unfolding start new
  read_loop-send_all node envs payloads chunks ps h =
      let (received, fit) = handed_on-Payloads node envs payloads ps in
      let wrote : concat chunks ≡ stream node payloads =
        ground (arith, port-send_all node true [] envs payloads ps) in
      ap (λ r. handed_on r.0) (read_loop-stream node payloads chunks fit wrote) ∙ received
