-- ===== src/Ffi.antt =====
-- aegis-mesh/crates/aegis-ffi/src/lib.rs: the functions that the Android application calls. The
-- crates, what is drawn at random, and the clock are arguments. A text is its bytes, which for
-- fingerprints are its characters.
pub mod Messages
pub mod Tests
use aegis_mesh.Base.Reply.{Reply, done, failed, ◌>>=◌, map_err}
use aegis_mesh.Base.Text.{Bytes, Text}
use aegis_mesh.Crypto.Fingerprint.{to_display, from_hex}
use aegis_mesh.Crypto.Fingerprint
use aegis_mesh.Crypto.Identity.{
  Identity, Crates, BlobJson, to_encrypted_blob, from_encrypted_blob, fingerprint, verifying_key,
}
use aegis_mesh.Crypto.Identity
use aegis_mesh.Crypto.IdentityId.{from_str}
use aegis_mesh.Crypto.Primitives.{Argon2, Aes256Gcm, Hex}
use aegis_mesh.Error
use aegis_mesh.Messaging.Envelope.{Now, direct_text}
use aegis_mesh.Messaging.Envelope.Wire.{Codec, sign, to_bytes, from_bytes}

pub data AegisError : Type 0 where
  crypto invalid not_found : AegisError

unfoldable pub from : Error.AegisError → AegisError
from Error.crypto = crypto
from Error.invalid = invalid
from _ = crypto

-- How a call ends without a value.
pub data Thrown : Type 0 where
  thrown : AegisError → Thrown
  panicked : Thrown

-- The `?` of this crate.
abbrev pub convert : {A : Type 0} → Error.Result A → Reply Thrown A
convert r = map_err (λ e. thrown (from e)) r

module _ (c : Crates) (argon2 : Argon2) (aes : Aes256Gcm) (fields : BlobJson) (hex : Hex)
    (codec : Codec) where
  unfoldable pub generate_identity : Bytes → Bytes → Bytes → Text → Text → Reply Thrown Bytes
  generate_identity entropy salt nonce display_name passphrase = do
    identity ← map_err (λ e. panicked) (Identity.new c entropy display_name)
    convert (to_encrypted_blob c argon2 aes fields salt nonce identity passphrase)

  abbrev pub opened : Bytes → Text → Reply Thrown Identity
  opened blob passphrase = convert (from_encrypted_blob c argon2 aes fields blob passphrase)

  unfoldable pub get_identity_id : Bytes → Text → Reply Thrown Text
  get_identity_id blob passphrase = do identity ← opened blob passphrase; done identity.id

  unfoldable pub get_display_name : Bytes → Text → Reply Thrown Text
  get_display_name blob passphrase = do
    identity ← opened blob passphrase
    done identity.display_name

  unfoldable pub get_fingerprint : Bytes → Text → Reply Thrown Text
  get_fingerprint blob passphrase = do
    identity ← opened blob passphrase
    done (to_display hex (fingerprint c identity))

  unfoldable pub get_verifying_key : Bytes → Text → Reply Thrown Bytes
  get_verifying_key blob passphrase = do
    identity ← opened blob passphrase
    done (verifying_key c identity)

  unfoldable pub safety_number : Text → Text → Reply Thrown Text
  safety_number fp1_hex fp2_hex = do
    fp1 ← convert (from_hex hex fp1_hex)
    fp2 ← convert (from_hex hex fp2_hex)
    done (Fingerprint.safety_number c.hash fp1 fp2)

  unfoldable pub build_direct_message : Now → Bytes → Text → Text → Text → Reply Thrown Bytes
  build_direct_message now blob passphrase recipient_id text = do
    identity ← opened blob passphrase
    recipient ← convert (from_str recipient_id)
    let (env, signed) =
        sign codec c.ed (direct_text now identity.id recipient text 10) identity.signing_key
    done_signing ← convert signed
    convert (to_bytes codec env)

  unfoldable pub parse_envelope_sender : Bytes → Reply Thrown Text
  parse_envelope_sender envelope_bytes = do
    env ← convert (from_bytes codec envelope_bytes)
    done env.sender

  unfoldable pub inject_ble_bytes : Bytes → Reply Thrown (Unit {0})
  inject_ble_bytes bytes = do env ← convert (from_bytes codec bytes); done tt

-- The call changes nothing.
unfoldable pub emergency_wipe : {S : Type 0} → S → S
emergency_wipe state = state
