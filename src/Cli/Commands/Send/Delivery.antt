-- ===== src/Cli/Commands/Send/Delivery.antt =====
-- aegis-mesh/crates/aegis-cli/src/commands/send.rs: what a hub reads from the socket of `aegis send`.
use aegis_mesh.Base.{
  ◌+◌, ◌%◌, ◌^◌, ◌≤◌, ◌≡◌, sym, ap, ◌∙◌, inl, inr, arith, Option, some, List, [], ◌∷◌, ◌++◌, length,
  length-append,
}
use mathlib.Core.List.{append-nil}
use aegis_mesh.Base.Reply.{done, Reply-cases}
use aegis_mesh.Base.Text.{Bytes, Text, be_bytes, length-be_bytes}
use aegis_mesh.Config.{WriteAnswer, refused, torn, written}
use aegis_mesh.Crypto.Identity.{Identity, Crates, BlobJson, verifying_key}
use aegis_mesh.Crypto.IdentityId.{IdentityId, from_str, from_str-IsCanonical}
use aegis_mesh.Crypto.Primitives.{Argon2, Aes256Gcm, Hex}
use aegis_mesh.Error.{Result, ok, Result-cases}
use aegis_mesh.Messaging.Envelope.{Envelope, Now, max_envelope_size}
use aegis_mesh.Messaging.Envelope.Wire.{Codec, to_bytes}
use aegis_mesh.Messaging.Envelope.Wire.SignedText.{IsMessage, signed_text, signed_text_lem}
use aegis_mesh.Transport.Loopback.{loopback_frame, handle_client}
use aegis_mesh.Transport.Loopback.Stream.{none_sent, sent, handle_client-Sent}
use aegis_mesh.Cli.Commands.{Answers, Line, unlocked}
use aegis_mesh.Cli.Commands.Send.{write_all, composed, send}

write_all_done :
    (w : WriteAnswer) (frame stream : Bytes)
    → write_all w frame ≡ (stream, done tt)
    → stream ≡ frame
unfolding write_all
write_all_done refused frame stream h = cc
write_all_done (torn part) frame stream h = cc
write_all_done written frame stream h = cc

module _ (c : Crates) (argon2 : Argon2) (aes : Aes256Gcm) (fields : BlobJson) (hex : Hex)
    (codec : Codec) where
  abbrev text_of : Now → Identity → IdentityId → Text → Envelope × Result (Unit {0})
  text_of now identity recipient body =
      signed_text codec c.ed now identity.id identity.signing_key recipient body

  record Composed (now : Now) (identity : Identity) (to body : Text) (recipient : IdentityId)
      (bytes : Bytes) : Type 0 where
    parsed : from_str to ≡ ok recipient
    signed : (text_of now identity recipient body).1 ≡ ok tt
    made : to_bytes codec (text_of now identity recipient body).0 ≡ ok bytes

  composed-Composed :
      (a : Answers) (now : Now) (to body : Text) (connection : Result (Unit {0}))
      (file : Option Bytes) (identity : Identity) (recipient : IdentityId) (bytes : Bytes)
      → unlocked c argon2 aes fields hex a file ≡ done identity
      → composed c argon2 aes fields hex codec a now to (some body) connection file
        ≡ done (recipient, bytes)
      → Composed now identity to body recipient bytes
  unfolding composed signed_text
  composed-Composed a now to body connection file identity recipient bytes u h =
      elim (Result-cases (from_str to)) [
        | inr (e, p) ↦ absurd (ground (arith, u, p))
        | inl (id, p) ↦ elim (Result-cases (text_of now identity id body).1) [
          | inr (e, s) ↦ absurd (ground (arith, u, p, s))
          | inl (_, s) ↦ elim (Result-cases connection) [
            | inr (e, k) ↦ absurd (ground (arith, u, p, s, k))
            | inl (_, k) ↦ elim (Result-cases (to_bytes codec (text_of now identity id body).0)) [
              | inr (e, b) ↦ absurd (ground (arith, u, p, s, k, b))
              | inl (out, b) ↦
                  let same : (id ≡ recipient) × (out ≡ bytes) = ground (arith, u, p, s, k, b) in
                  rw (← same.0, ← same.1) (record { parsed = p; signed = s; made = b })
            ]
          ]
        ]
      ]

  -- What `aegis send` writes for a text, once it reports success, a hub reads as exactly one
  -- envelope: a text message from the identity of the file to the parsed recipient, whose signature
  -- verifies under the identity's key. The identity has an identifier of 64 bytes, and the frame is
  -- within the limit of the hub.
  pub handle_client-send :
      (a : Answers) (now : Now) (to body : Text) (connection : Result (Unit {0})) (w : WriteAnswer)
      (file : Option Bytes) (identity : Identity) (stream : Bytes) (lines : List Line)
      → unlocked c argon2 aes fields hex a file ≡ done identity
      → length identity.id ≡ 64
      → send c argon2 aes fields hex codec a now to (some body) connection w file
        ≡ (stream, done lines)
      → length stream ≤ 4 + max_envelope_size
      → (recipient : IdentityId) × (from_str to ≡ ok recipient)
        × ((env : Envelope) × (handle_client codec stream ≡ env ∷ [])
            × IsMessage now codec c.ed identity.id (verifying_key c identity) recipient body env)
  unfolding send loopback_frame verifying_key
  handle_client-send a now to body connection w file identity stream lines u i h l =
      elim (Reply-cases
        (composed c argon2 aes fields hex codec a now to (some body) connection file)) [
          | inr (e, p) ↦ absurd (ground (arith, p))
          | inl ((recipient, bytes), p) ↦
              elim (Reply-cases (write_all w (loopback_frame bytes)).1) [
                | inr (e, q) ↦ absurd (ground (arith, p, q))
                | inl (_, q) ↦
                    let wrote : write_all w (loopback_frame bytes) ≡ (stream, done tt) =
                      ground (arith, p, q) in
                    let frame = write_all_done w (loopback_frame bytes) stream wrote in
                    let k =
                      composed-Composed a now to body connection file identity recipient bytes u
                        p in
                    let env = (text_of now identity recipient body).0 in
                    let (message, typed, valid) =
                      signed_text_lem codec c.ed now identity.id identity.signing_key recipient body
                        k.signed i (from_str-IsCanonical to recipient k.parsed).sized in
                    let size : length bytes ≤ max_envelope_size = omega (
                      arith,
                      l,
                      ap length frame,
                      length-be_bytes 4 (length bytes % 2 ^ 32),
                      length-append (be_bytes 4 (length bytes % 2 ^ 32)) bytes,
                    ) in
                    let whole : stream ≡ loopback_frame bytes ++ [] =
                      frame ∙ sym (append-nil (loopback_frame bytes)) in
                    (
                      recipient,
                      k.parsed,
                      (
                        env,
                        rw whole (
                            handle_client-Sent codec (env ∷ []) (loopback_frame bytes ++ [])
                              (sent env bytes [] [] typed valid k.made size none_sent)),
                        message,
                      ),
                    )
              ]
        ]
