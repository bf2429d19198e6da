-- ===== src/Cli/Commands/Send.antt =====
-- aegis-mesh/crates/aegis-cli/src/commands/send.rs: `aegis send`, and what a hub reads of it.
pub mod Delivery
pub mod Arrival
pub mod Served
use aegis_mesh.Base.{Option, List, [], ◌∷◌, length}
use aegis_mesh.Base.Reply.{Reply, done, failed, ◌>>=◌, done_or, map_err}
use aegis_mesh.Base.Text.{Bytes, Text}
use aegis_mesh.Config.{WriteAnswer, refused, torn, written}
use aegis_mesh.Crypto.Identity.{Crates, BlobJson}
use aegis_mesh.Crypto.IdentityId.{IdentityId, from_str}
use aegis_mesh.Crypto.Primitives.{Argon2, Aes256Gcm, Hex}
use aegis_mesh.Error.{Result}
use aegis_mesh.Messaging.Envelope.{Envelope, Now, direct_text}
use aegis_mesh.Messaging.Envelope.Wire.{Codec, sign, to_bytes}
use aegis_mesh.Transport.Loopback.{loopback_frame}
use aegis_mesh.Cli.Commands.{
  Answers, Failure, io_failed, invalid_recipient, signing, connecting, serializing, sending, Line,
  sent_line, unlocked,
}

-- What the writes of a frame leave on the socket.
unfoldable pub write_all : WriteAnswer → Bytes → Bytes × Reply Failure (Unit {0})
write_all refused frame = ([], failed sending)
write_all (torn part) frame = (part, failed sending)
write_all written frame = (frame, done tt)

module _ (c : Crates) (argon2 : Argon2) (aes : Aes256Gcm) (fields : BlobJson) (hex : Hex)
    (codec : Codec) where
  -- The recipient and the bytes of the envelope. `body` is the message of the option, or the trimmed
  -- input; `connection` is what `connect_to_hub` answers.
  unfoldable pub composed :
      Answers
      → Now
      → Text
      → Option Text
      → Result (Unit {0})
      → Option Bytes
      → Reply Failure (IdentityId × Bytes)
  composed a now to body connection file = do
    identity ← unlocked c argon2 aes fields hex a file
    recipient ← map_err invalid_recipient (from_str to)
    text ← done_or body io_failed
    let (env, signed) =
        sign codec c.ed (direct_text now identity.id recipient text 10) identity.signing_key
    done_signing ← map_err signing signed
    connected ← map_err connecting connection
    bytes ← map_err serializing (to_bytes codec env)
    done (recipient, bytes)

  -- The bytes on the socket, and what is shown.
  unfoldable pub send :
      Answers
      → Now
      → Text
      → Option Text
      → Result (Unit {0})
      → WriteAnswer
      → Option Bytes
      → Bytes × Reply Failure (List Line)
  send a now to body connection w file = elim (composed a now to body connection file) [
    | failed e ↦ ([], failed e)
    | done (recipient, bytes) ↦
        let (stream, reply) = write_all w (loopback_frame bytes) in
        (stream, (do finished ← reply; done (sent_line recipient (length bytes) ∷ [])))
  ]
