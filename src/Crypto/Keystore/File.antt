-- ===== src/Crypto/Keystore/File.antt =====
-- aegis-mesh/crates/aegis-core/src/crypto/keystore.rs: `FileKeyStore`, which keeps the encrypted map
-- in one file. The disk is the file and the temporary file beside it, where the two paths differ; what
-- the operating system answers, and the random salt and nonce, are an argument of each call. Argon2,
-- AES-GCM and JSON are parameters.
pub mod Atomic
use aegis_mesh.Base.{
  ℕ, ◌+◌, ◌≡◌, Bool, true, false, not, Option, none, some, List, [], ◌∷◌, ◌++◌, map, length, take,
  drop, ltb, ◌==◌, nat_eq, list_eq, if◌then◌else◌,
}
use aegis_mesh.Base.Map
use aegis_mesh.Base.Map.{Map}
use aegis_mesh.Base.Text.{Text, Bytes}
use aegis_mesh.Config.{WriteAnswer, secure_write}
use aegis_mesh.Crypto.Aead.OneShot.{derive_key, encrypt, decrypt}
use aegis_mesh.Crypto.Keystore.{KeyStore}
use aegis_mesh.Crypto.Primitives.{Argon2, Aes256Gcm}
use aegis_mesh.Error.{Result, ok, err, ok_or, ◌>>=◌, invalid, io, json}

-- serde_json at a `HashMap`: what is read has the values of what was written, in any order.
pub record MapJson : Type 0 where
  pub to_vec : Map Text Bytes → Option Bytes
  pub from_slice : Bytes → Option (Map Text Bytes)
  pub round_trip :
      (m : Map Text Bytes) (bytes : Bytes)
      → to_vec m ≡ some bytes
      → (m' : Map Text Bytes) × (from_slice bytes ≡ some m')
        × ((k : Text) → Map.get m' k ≡ Map.get m k)

pub record Disk : Type 0 where
  pub file : Option Bytes
  pub tmp : Option Bytes
  -- Whether the path has the extension `tmp`, so that the temporary file is the file itself.
  pub is_own_tmp : Bool

-- Whether the file is found where it exists (`Path::exists` takes an error for an absence), whether it
-- can be read, how the write of the temporary file goes, whether the rename succeeds, and the random
-- bytes.
pub record Answers : Type 0 where
  pub is_found : Bool
  pub is_readable : Bool
  pub write : WriteAnswer
  pub is_renamed : Bool
  pub salt : Bytes
  pub nonce : Bytes
  pub salt_size : length salt ≡ 16
  pub nonce_size : length nonce ≡ 12

unfoldable pub rename : Bool → Disk → Disk × Result (Unit {0})
rename is_renamed disk =
    if not is_renamed
    then (disk, err io)
    else if disk.is_own_tmp
    then (disk, ok tt)
    else (record disk { file = disk.tmp; tmp = none }, ok tt)

unfoldable pub write_tmp : WriteAnswer → Bytes → Disk → Disk × Result (Unit {0})
write_tmp answer bytes disk =
    if disk.is_own_tmp
    then (let (file, reply) = secure_write answer bytes disk.file in
        (record disk { file = file }, reply))
    else (let (tmp, reply) = secure_write answer bytes disk.tmp in
        (record disk { tmp = tmp }, reply))

module _ (argon2 : Argon2) (aes : Aes256Gcm) (maps : MapJson) (passphrase : Text) where
  -- A file behind its version byte.
  unfoldable pub open_body : Bytes → Result (Map Text Bytes)
  open_body body = do
    key ← derive_key argon2 passphrase (take 16 body)
    plaintext ← decrypt aes key (drop 16 body)
    ok_or (maps.from_slice plaintext) json

  unfoldable pub open_bytes : Bytes → Result (Map Text Bytes)
  open_bytes [] = err invalid
  open_bytes (version ∷ body) =
      if ltb (length (version ∷ body)) (1 + 16 + 12 + 16)
      then err invalid
      else if version == 1
      then open_body body
      else err invalid

  unfoldable pub load_all : Answers → Disk → Result (Map Text Bytes)
  load_all a disk = elim disk.file [
    | none ↦ ok []
    | some bytes ↦
        if not a.is_found then ok [] else if a.is_readable then open_bytes bytes else err io
  ]

  -- The bytes that `flush` writes.
  unfoldable pub sealed_bytes : Answers → Map Text Bytes → Result Bytes
  sealed_bytes a m = do
    plaintext ← ok_or (maps.to_vec m) json
    key ← derive_key argon2 passphrase a.salt
    ct ← encrypt aes a.nonce key plaintext
    ok (1 ∷ (a.salt ++ ct))

  unfoldable pub flush : Answers → Map Text Bytes → Disk → Disk × Result (Unit {0})
  flush a m disk = elim (sealed_bytes a m) [
    | err e ↦ (disk, err e)
    | ok bytes ↦
        let (written_disk, reply) = write_tmp a.write bytes disk in
        elim reply [ err e ↦ (written_disk, err e) | ok done ↦ rename a.is_renamed written_disk ]
  ]

  unfoldable pub store : Answers → Text → Bytes → Disk → Disk × Result (Unit {0})
  store a key value disk = elim (load_all a disk) [
    | err e ↦ (disk, err e)
    | ok m ↦ flush a (Map.insert m key value) disk
  ]

  unfoldable pub load : Answers → Text → Disk → Result (Option Bytes)
  load a key disk = do m ← load_all a disk; ok (Map.get m key)

  unfoldable pub delete : Answers → Text → Disk → Disk × Result (Unit {0})
  delete a key disk = elim (load_all a disk) [
    | err e ↦ (disk, err e)
    | ok m ↦ flush a (Map.remove m key) disk
  ]

  unfoldable pub list : Answers → Disk → Result (List Text)
  list a disk = do m ← load_all a disk; ok (map (λ e. e.0) m)

  -- `open` tries the passphrase.
  unfoldable pub open_store : Answers → Disk → Result (Unit {0})
  open_store a disk = do m ← load_all a disk; ok tt

  abbrev pub file_key_store : KeyStore Disk Answers
  file_key_store = record { store = store; load = load; delete = delete; list = list }
