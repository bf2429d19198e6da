-- ===== src/Cli/Commands.antt =====
-- aegis-mesh/crates/aegis-cli/src/context.rs and src/commands: `aegis identity` and `aegis wipe`
-- over the file of the identity and the data directory, and what the other commands share. The
-- errors are named for the messages of the code. What the user types, what the operating system
-- answers and what is drawn at random is an argument of a command.
pub mod Send
pub mod Recovery
pub mod Start
pub mod Tests
use aegis_mesh.Base.{
  ℕ, ◌≡◌, Bool, true, false, not, ◌&&◌, Option, none, some, List, [], ◌∷◌, length, filter, ltb,
  ◌==◌, nat_eq, list_eq, if◌then◌else◌,
}
use aegis_mesh.Base.Reply.{Reply, done, failed, ◌>>=◌, ◌>>◌, require, done_or, map_err}
use aegis_mesh.Base.Text.{Bytes, Text, codes}
use aegis_mesh.Config.{WriteAnswer, secure_write, join}
use aegis_mesh.Crypto.Aead.{nonce_size}
use aegis_mesh.Crypto.Fingerprint.{to_display}
use aegis_mesh.Crypto.Identity.{
  Identity, Crates, BlobJson, from_mnemonic, to_encrypted_blob, from_encrypted_blob, fingerprint,
}
use aegis_mesh.Crypto.Identity
use aegis_mesh.Crypto.Primitives.{Argon2, Aes256Gcm, Hex}
use aegis_mesh.Error.{AegisError}

pub record CliContext : Type 0 where
  pub data_dir : Text
  pub config_path : Text
  pub identity_path : Text
  pub db_path : Text
  pub socket_path : Text

unfoldable pub new_context : Text → CliContext
new_context data_dir = record {
  data_dir = data_dir;
  config_path = join data_dir (codes "config.toml");
  identity_path = join data_dir (codes "identity.enc");
  db_path = join data_dir (codes "aegis.db");
  socket_path = join data_dir (codes "aegis.sock");
}

-- How a command fails. An error of the core comes with a message, or by `?`.
pub data Failure : Type 0 where
  io_failed sending panicked identity_exists passphrase_short no_identity : Failure
  converted encrypting decrypting invalid_mnemonic invalid_recipient : AegisError → Failure
  signing connecting serializing starting : AegisError → Failure

-- What a command shows.
pub data Line : Type 0 where
  name_line id_line fingerprint_line : Text → Line
  -- on the error stream
  mnemonic_line : Text → Line
  -- the recipient, and the number of bytes
  sent_line : Text → ℕ → Line

-- The answers to a command.
pub record Answers : Type 0 where
  pub passphrase : Option Text
  pub mnemonic : Option Text
  pub is_readable : Bool
  pub write : WriteAnswer
  pub entropy : Bytes
  pub salt : Bytes
  pub nonce : Bytes
  pub entropy_size : length entropy ≡ 32
  pub salt_size : length salt ≡ 16
  pub nonce_size : length nonce ≡ nonce_size

unfoldable pub read_identity_blob : Answers → Option Bytes → Reply Failure (Option Bytes)
read_identity_blob a none = done none
read_identity_blob a (some bytes) = if a.is_readable then done (some bytes) else failed io_failed

-- The file before and after, and the lines that follow.
unfoldable pub write_identity_blob :
    Answers → Bytes → List Line → Option Bytes → Option Bytes × Reply Failure (List Line)
write_identity_blob a blob lines file =
    let (after, reply) = secure_write a.write blob file in
    (after, (do written ← map_err converted reply; done lines))

module _ (c : Crates) (argon2 : Argon2) (aes : Aes256Gcm) (fields : BlobJson) (hex : Hex) where
  abbrev pub key_lines : Identity → List Line
  key_lines identity =
      id_line identity.id ∷ fingerprint_line (to_display hex (fingerprint c identity)) ∷ []

  abbrev sealed : Answers → Text → Identity → Reply Failure Bytes
  sealed a passphrase identity =
      map_err encrypting (to_encrypted_blob c argon2 aes fields a.salt a.nonce identity passphrase)

  abbrev chosen_passphrase : Answers → Reply Failure Text
  chosen_passphrase a = do
    passphrase ← done_or a.passphrase io_failed
    require (not (ltb (length passphrase) 8)) passphrase_short
    done passphrase

  unfoldable pub made : Answers → Text → Reply Failure (Identity × Bytes)
  made a name = do
    passphrase ← chosen_passphrase a
    identity ← map_err (λ e. panicked) (Identity.new c a.entropy name)
    blob ← sealed a passphrase identity
    done (identity, blob)

  unfoldable pub create : Answers → Text → Option Bytes → Option Bytes × Reply Failure (List Line)
  create a name (some old) = (some old, failed identity_exists)
  create a name none = elim (made a name) [
    | failed e ↦ (none, failed e)
    | done (identity, blob) ↦
        write_identity_blob a blob (name_line identity.display_name ∷ key_lines identity) none
  ]

  unfoldable pub unlocked : Answers → Option Bytes → Reply Failure Identity
  unlocked a file = do
    found ← read_identity_blob a file
    blob ← done_or found no_identity
    passphrase ← done_or a.passphrase io_failed
    map_err decrypting (from_encrypted_blob c argon2 aes fields blob passphrase)

  unfoldable pub show : Answers → Option Bytes → Reply Failure (List Line)
  show a file = do
    identity ← unlocked a file
    done (name_line identity.display_name ∷ key_lines identity)

  -- Without the wait for Enter.
  unfoldable pub reveal : Answers → Option Bytes → Reply Failure (List Line)
  reveal a file = do identity ← unlocked a file; done (mnemonic_line identity.mnemonic ∷ [])

  unfoldable pub restored : Answers → Text → Reply Failure (Identity × Bytes)
  restored a name = do
    passphrase ← chosen_passphrase a
    mnemonic ← done_or a.mnemonic io_failed
    identity ← map_err invalid_mnemonic (from_mnemonic c name mnemonic)
    blob ← sealed a passphrase identity
    done (identity, blob)

  unfoldable pub import : Answers → Text → Option Bytes → Option Bytes × Reply Failure (List Line)
  import a name file = elim (restored a name) [
    | failed e ↦ (file, failed e)
    | done (identity, blob) ↦ write_identity_blob a blob (key_lines identity) file
  ]

-- An entry of the data directory, and whether the system lets it be removed.
pub record Entry : Type 0 where
  pub path : Text
  pub is_file : Bool
  pub is_removable : Bool

-- `confirmed` is the trimmed line that the user types. The results of the removals are ignored.
unfoldable pub wipe : Bool → Text → List Entry → List Entry
wipe yes_flag confirmed entries =
    if not yes_flag && not (confirmed == codes "WIPE")
    then entries
    else filter (λ e. not (e.is_file && e.is_removable)) entries
