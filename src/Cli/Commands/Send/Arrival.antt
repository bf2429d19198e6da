-- ===== src/Cli/Commands/Send/Arrival.antt =====
-- aegis-mesh/crates/aegis-cli/src/commands/send.rs and serve.rs: a text on its way from `aegis send`
-- through the hub to the line that the recipient's node prints.
use aegis_mesh.Base.{
  ℕ, ◌+◌, ◌≤◌, ◌<◌, ◌≡◌, ◌≢◌, sym, ap, ◌∙◌, inr, arith, true, Option, none, some, List, [], ◌∷◌,
  take, length, nat_eq, list_eq,
}
use aegis_mesh.Base.Reply.{done}
use aegis_mesh.Base.Text.{Bytes, Text, all_hexdigits}
use aegis_mesh.Config.{WriteAnswer}
use aegis_mesh.Crypto.Identity.{Identity, Crates, BlobJson, verifying_key}
use aegis_mesh.Crypto.IdentityId.{IdentityId, from_str}
use aegis_mesh.Crypto.Primitives.{Ed25519, Argon2, Aes256Gcm, Hex}
use aegis_mesh.Error.{Result, ok}
use aegis_mesh.Mesh.Router.{max_skew_ns, max_age_ns}
use aegis_mesh.Mesh.Router.Inbound.{IsAdmissible}
use aegis_mesh.Mesh.Router.Tables.{seen_at}
use aegis_mesh.Messaging.Envelope.{Envelope, Now, now_ns, max_envelope_size, u64_mod}
use aegis_mesh.Messaging.Envelope.Id
use aegis_mesh.Messaging.Envelope.Wire.{Codec}
use aegis_mesh.Messaging.Envelope.Wire.SignedText.{IsMessage}
use aegis_mesh.Transport.Loopback.{handle_client}
use aegis_mesh.Cli.Commands.{Answers, Line, unlocked}
use aegis_mesh.Cli.Commands.Send.{send}
use aegis_mesh.Cli.Commands.Send.Delivery.{handle_client-send}
use aegis_mesh.Cli.Serve.{Node, printed, handle_inbound}
use aegis_mesh.Cli.Serve.Arrive.{handle_inbound-prints}

-- The node of the recipient prints a message that is fresh and new to it.
handle_inbound-IsMessage :
    (codec : Codec) (ed : Ed25519) (now : Now) (from : IdentityId) (key : Bytes) (body : Text)
    (env : Envelope) (node : Node) (later instant : ℕ)
    → IsMessage now codec ed from key node.router.our_id body env
    → length from ≡ 64
    → all_hexdigits from ≡ true
    → from ≢ node.our_id
    → now_ns now.stamp_ns ≤ later
    → later ≤ now_ns now.stamp_ns + max_age_ns
    → later + max_skew_ns + max_age_ns < u64_mod
    → seen_at node.router.table (Id.new now.id_ns) ≡ none
    → (after : Node) × (handle_inbound node later instant env
        ≡ some (after, printed (take 8 from) body ∷ []))
handle_inbound-IsMessage codec ed now from key body env node later instant m sized hexadecimal other
      soon fresh far new =
    let entry : IsAdmissible node.router later env = record {
      near = omega (arith, m.hops);
      alive = inr m.hops;
      not_future = omega (arith, m.stamp);
      not_old = omega (arith, m.stamp);
    } in
    let (after, prints) =
      handle_inbound-prints node later instant env body m.kind m.addressee m.content
        (ap length m.sender ∙ sized) (ap all_hexdigits m.sender ∙ hexadecimal)
        (λ e. other (sym m.sender ∙ e)) entry (rw m.id new) far in
    (after, prints ∙ ap (λ s. some (after, printed (take 8 s) body ∷ [])) m.sender)

module _ (c : Crates) (argon2 : Argon2) (aes : Aes256Gcm) (fields : BlobJson) (hex : Hex)
    (codec : Codec) where
  -- A text that `aegis send` reports as sent is printed by the node of its recipient: the hub reads
  -- one envelope from the socket, and the node prints the start of the sender's identifier and the
  -- text. The sender is another node with an identifier of 64 hexadecimal digits, the frame is
  -- within the limit of the hub, the envelope arrives at or after its time stamp and before it is too
  -- old, and the node has no envelope with its identifier on record.
  pub handle_inbound-send :
      (a : Answers) (now : Now) (to body : Text) (connection : Result (Unit {0})) (w : WriteAnswer)
      (file : Option Bytes) (identity : Identity) (stream : Bytes) (lines : List Line) (node : Node)
      (later instant : ℕ)
      → unlocked c argon2 aes fields hex a file ≡ done identity
      → length identity.id ≡ 64
      → all_hexdigits identity.id ≡ true
      → identity.id ≢ node.our_id
      → from_str to ≡ ok node.router.our_id
      → send c argon2 aes fields hex codec a now to (some body) connection w file
        ≡ (stream, done lines)
      → length stream ≤ 4 + max_envelope_size
      → now_ns now.stamp_ns ≤ later
      → later ≤ now_ns now.stamp_ns + max_age_ns
      → later + max_skew_ns + max_age_ns < u64_mod
      → seen_at node.router.table (Id.new now.id_ns) ≡ none
      → (env : Envelope) × (after : Node) × (handle_client codec stream ≡ env ∷ [])
        × (handle_inbound node later instant env
            ≡ some (after, printed (take 8 identity.id) body ∷ []))
  handle_inbound-send a now to body connection w file identity stream lines node later instant opens
        sized hexadecimal other to_us sent small soon fresh far new =
      let (recipient, parsed, (env, read, message)) =
        handle_client-send c argon2 aes fields hex codec a now to body connection w file identity
          stream lines opens sized sent small in
      let same : recipient ≡ node.router.our_id = ground (arith, parsed, to_us) in
      let (after, prints) =
        handle_inbound-IsMessage codec c.ed now identity.id (verifying_key c identity) body env node
          later instant (rw (← same) message) sized hexadecimal other soon fresh far new in
      (env, after, read, prints)
