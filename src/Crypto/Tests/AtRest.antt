-- ===== src/Crypto/Tests/AtRest.antt =====
-- The theorems on the data at rest and on fingerprints, of aegis-mesh/crates/aegis-core/src/crypto,
-- at concrete values.
use native.Mathlib.Decide.{ℕ_discrete}
use aegis_mesh.Base.{
  ◌≡◌, refl, true, false, none, some, List, [], ◌∷◌, ◌++◌, length, replicate, All,
}
use aegis_mesh.Base.Map
use aegis_mesh.Base.Map.{Map}
use aegis_mesh.Base.Text.{Bytes, Text, codes}
use aegis_mesh.Config.{written, torn, secure_write}
use aegis_mesh.Crypto.Aead.{seal, unseal}
use aegis_mesh.Crypto.Aead.OneShot.{derive_key}
use aegis_mesh.Crypto.Aead.OneShot
use aegis_mesh.Crypto.Fingerprint.{safety_number}
use aegis_mesh.Crypto.Fingerprint.Safety.{IsDigit, safety_number_lem}
use aegis_mesh.Crypto.Identity.{Identity}
use aegis_mesh.Crypto.Keystore.File.{
  Answers, Disk, MapJson, load, store, delete, load_all, open_bytes, open_body, flush, sealed_bytes,
  rename, write_tmp, file_key_store,
}
use aegis_mesh.Crypto.Keystore.File.Atomic.{load-run_file}
use aegis_mesh.Crypto.Keystore.Spec.{Call, stored, deleted, run, values_after}
use aegis_mesh.Error.{ok}
use aegis_mesh.Samples.Identities.{plain_argon2}
use aegis_mesh.Samples.{write, read, read-write, plain_aes, plain_hash}

safety_number_lem_example :
    (safety_number plain_hash (1 ∷ []) (2 ∷ []) ≡ safety_number plain_hash (2 ∷ []) (1 ∷ []))
    × (length (safety_number plain_hash (1 ∷ []) (2 ∷ [])) ≡ 60)
    × All IsDigit (safety_number plain_hash (1 ∷ []) (2 ∷ []))
safety_number_lem_example = safety_number_lem plain_hash (1 ∷ []) (2 ∷ [])

abbrev anna : Identity
anna = record { display_name = b'A' ∷ []; mnemonic = 9 ∷ []; signing_key = 9 ∷ []; id = 9 ∷ [] }

abbrev anna_blob : Bytes
anna_blob = 1 ∷ (replicate 16 3 ++ (replicate 12 7 ++ (b'A' ∷ 9 ∷ replicate 16 0)))

unfoldable Map-discrete : Discrete (Map Text Bytes)
Map-discrete = hlevel (ℕ_discrete)

-- A format for two maps.
abbrev two_maps : List (Map Text Bytes)
two_maps = [] ∷ ((codes "k", 1 ∷ []) ∷ []) ∷ []

abbrev two_json : MapJson
two_json = record {
  to_vec = write Map-discrete two_maps;
  from_slice = read two_maps;
  round_trip = λ m bytes h. (m, read-write Map-discrete two_maps m bytes h, λ k. refl);
}

abbrev fine : Answers
fine = record {
  is_found = true;
  is_readable = true;
  write = written;
  is_renamed = true;
  salt = replicate 16 3;
  nonce = replicate 12 7;
  salt_size = refl;
  nonce_size = refl;
}

abbrev unwritable : Answers
unwritable = record fine { write = torn (5 ∷ []) }

abbrev no_disk : Disk
no_disk = record { file = none; tmp = none; is_own_tmp = false }

-- A store, and a deletion whose write is torn.
abbrev calls : List (Call Answers)
calls = stored fine (codes "k") (1 ∷ []) ∷ deleted unwritable (codes "k") ∷ []

load-run_file_example :
    load plain_argon2 plain_aes two_json
      (codes "pass")
      fine
      (codes "k")
      (run (file_key_store plain_argon2 plain_aes two_json (codes "pass")) no_disk calls)
    ≡ ok (some (1 ∷ []))
unfolding values_after store delete load_all open_bytes open_body flush sealed_bytes rename
    write_tmp secure_write derive_key OneShot.encrypt OneShot.decrypt seal unseal Map.insert
    Map.remove Map-discrete ℕ_discrete
load-run_file_example =
    load-run_file plain_argon2 plain_aes two_json (codes "pass") calls fine (codes "k") no_disk refl
      refl (refl, (refl, tt)) (refl, refl)
