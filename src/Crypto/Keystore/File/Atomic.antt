-- ===== src/Crypto/Keystore/File/Atomic.antt =====
-- aegis-mesh/crates/aegis-core/src/crypto/keystore.rs: the file after a flush, and the key store that
-- it makes.
use aegis_mesh.Base.{
  All, ◌+◌, ◌≡◌, refl, sym, ap, ◌∙◌, ◌⊎◌, inl, inr, arith, true, false, Option, none, some, List,
  [], ◌∷◌, ◌++◌, map, length, length-append, take, drop, take-append, drop-append, ltb, ◌==◌,
  nat_eq, list_eq, if◌then◌else◌, Bool-cases, Option-cases,
}
use mathlib.Core.Path.{subst}
use aegis_mesh.Base.Map
use aegis_mesh.Base.Map.{Map, get-insert, get-remove}
use aegis_mesh.Base.Text.{Text, Bytes}
use aegis_mesh.Config.{WriteAnswer, refused, torn, written, secure_write}
use aegis_mesh.Crypto.Aead.OneShot.{derive_key, encrypt, encrypt-decrypt_once, length-encrypt_once}
use aegis_mesh.Crypto.Keystore.{Values, updated, is_some, IsKeyStore}
use aegis_mesh.Crypto.Keystore.Memory.{contains-keys}
use aegis_mesh.Crypto.Keystore.Spec.{Call, answers_of, run, values_after, load-run}
use aegis_mesh.Crypto.Primitives.{Argon2, Aes256Gcm}
use aegis_mesh.Error.{Result, ok, err, ok_or, is_err, io, json, Result-cases}
use aegis_mesh.Crypto.Keystore.File.{
  MapJson, Disk, Answers, rename, write_tmp, open_body, open_bytes, load_all, sealed_bytes, flush,
  store, load, delete, list, file_key_store,
}

secure_write_whole :
    (answer : WriteAnswer) (bytes : Bytes) (file : Option Bytes)
    → (secure_write answer bytes file).1 ≡ ok tt
    → (secure_write answer bytes file).0 ≡ some bytes
unfolding secure_write
secure_write_whole refused bytes file h = cc
secure_write_whole (torn part) bytes file h = cc
secure_write_whole written bytes file h = refl

module _ (argon2 : Argon2) (aes : Aes256Gcm) (maps : MapJson) (passphrase : Text) where
  -- What a sealed map opens to.
  record Opens (m : Map Text Bytes) (bytes : Bytes) : Type 0 where
    back : Map Text Bytes
    opened : open_bytes argon2 aes maps passphrase bytes ≡ ok back
    same : (k : Text) → Map.get back k ≡ Map.get m k

  open_bytes-body :
      (a : Answers) (key plaintext ct : Bytes)
      → derive_key argon2 passphrase a.salt ≡ ok key
      → encrypt aes a.nonce key plaintext ≡ ok ct
      → open_bytes argon2 aes maps passphrase (1 ∷ (a.salt ++ ct))
        ≡ ok_or (maps.from_slice plaintext) json
  unfolding open_bytes open_body
  open_bytes-body a key plaintext ct k e =
      let sized = length-encrypt_once aes a.nonce key plaintext ct a.nonce_size e in
      let long : ltb (length (1 ∷ (a.salt ++ ct))) (1 + 16 + 12 + 16) ≡ false =
        ground (arith, length-append a.salt ct, sized, a.salt_size) in
      let front : take 16 (a.salt ++ ct) ≡ a.salt =
        ap (λ n. take n (a.salt ++ ct)) (sym a.salt_size) ∙ take-append a.salt ct in
      let back : drop 16 (a.salt ++ ct) ≡ ct =
        ap (λ n. drop n (a.salt ++ ct)) (sym a.salt_size) ∙ drop-append a.salt ct in
      rw (long, front, back, k, encrypt-decrypt_once aes a.nonce key plaintext ct a.nonce_size e)
        refl

  sealed_bytes-Opens :
      (a : Answers) (m : Map Text Bytes) (bytes : Bytes)
      → sealed_bytes argon2 aes maps passphrase a m ≡ ok bytes
      → Opens m bytes
  unfolding sealed_bytes
  sealed_bytes-Opens a m bytes h = elim (Option-cases (maps.to_vec m)) [
    | inl e ↦ absurd (ground (arith, e))
    | inr (plaintext, e) ↦ elim (Result-cases (derive_key argon2 passphrase a.salt)) [
      | inr (x, k) ↦ absurd (ground (arith, e, k))
      | inl (key, k) ↦ elim (Result-cases (encrypt aes a.nonce key plaintext)) [
        | inr (x, s) ↦ absurd (ground (arith, e, k, s))
        | inl (ct, s) ↦
            let same : 1 ∷ (a.salt ++ ct) ≡ bytes = ground (arith, e, k, s) in
            let (back, read, equal) = maps.round_trip m plaintext e in
            record {
              back = back;
              opened = rw (← same, open_bytes-body a key plaintext ct k s, read) refl;
              same = equal;
            }
      ]
    ]
  ]

  -- What a flush answers, and what is left of the disk.
  abbrev Flushed : Map Text Bytes → Disk → Disk × Result (Unit {0}) → Type 0
  Flushed m disk (after, reply) =
      ((reply ≡ ok tt)
        × (after.is_own_tmp ≡ false)
        × ((bytes : Bytes) × (after.file ≡ some bytes) × Opens m bytes))
      ⊎ ((is_err reply ≡ true) × (after.is_own_tmp ≡ false) × (after.file ≡ disk.file))

  flush-apart :
      (a : Answers) (m : Map Text Bytes) (file tmp : Option Bytes)
      → let disk : Disk = record { file = file; tmp = tmp; is_own_tmp = false } in
        Flushed m disk (flush argon2 aes maps passphrase a m disk)
  unfolding flush rename write_tmp
  flush-apart a m file tmp = elim (Result-cases (sealed_bytes argon2 aes maps passphrase a m)) [
    | inr (e, failed) ↦ rw (failed, flush) (inr (refl, refl, refl))
    | inl (bytes, sealed) ↦ elim (Result-cases (secure_write a.write bytes tmp).1) [
      | inr (e, failed) ↦ rw (sealed, failed, flush) (inr (refl, refl, refl))
      | inl (done, wrote) ↦ elim (Bool-cases a.is_renamed) [
        | inr lost ↦ rw (sealed, wrote, lost, flush) (inr (refl, refl, refl))
        | inl moved ↦
            rw (sealed, wrote, moved, flush)
              (inl (
                refl,
                refl,
                (
                  bytes,
                  secure_write_whole a.write bytes tmp wrote,
                  sealed_bytes-Opens a m bytes sealed,
                ),
              ))
      ]
    ]
  ]

  -- A flush is reported as done, and then the file opens to the map; or it fails, and then the file
  -- is untouched, whatever is left in the temporary file.
  flush_lem :
      (a : Answers) (m : Map Text Bytes) (disk : Disk)
      → disk.is_own_tmp ≡ false
      → Flushed m disk (flush argon2 aes maps passphrase a m disk)
  flush_lem a m disk apart =
      let whole : ◌≡◌ {A = Disk} (record { file = disk.file; tmp = disk.tmp; is_own_tmp = false })
          disk =
        ap (λ b. record { file = disk.file; tmp = disk.tmp; is_own_tmp = b }) (sym apart) in
      subst (λ d. Flushed m d (flush argon2 aes maps passphrase a m d)) whole
        (flush-apart a m disk.file disk.tmp)

  abbrev contents : Option Bytes → Result (Map Text Bytes)
  contents none = ok []
  contents (some bytes) = open_bytes argon2 aes maps passphrase bytes

  -- The file opens to a map with these values.
  pub record FileHolds (disk : Disk) (values : Values) : Type 0 where
    pub back : Map Text Bytes
    pub apart : disk.is_own_tmp ≡ false
    pub opened : contents disk.file ≡ ok back
    pub same : (k : Text) → Map.get back k ≡ values k

  load_all_cases :
      (a : Answers) (disk : Disk) (m : Map Text Bytes)
      → a.is_found ≡ true
      → contents disk.file ≡ ok m
      → (load_all argon2 aes maps passphrase a disk ≡ ok m)
        ⊎ ((a.is_readable ≡ false) × (load_all argon2 aes maps passphrase a disk ≡ err io))
  unfolding load_all
  load_all_cases a disk m found h = elim (Option-cases disk.file) [
    | inl missing ↦ inl (rw (missing, load_all) (rw missing at h))
    | inr (bytes, there) ↦ elim (Bool-cases a.is_readable) [
      | inl r ↦ inl (rw (there, found, r, load_all) (rw there at h))
      | inr r ↦ inr (r, rw (there, found, r, load_all) refl)
    ]
  ]

  flush-FileHolds :
      (a : Answers) (m : Map Text Bytes) (disk : Disk) (old new : Values)
      → FileHolds disk old
      → ((k : Text) → Map.get m k ≡ new k)
      → let (after, reply) = flush argon2 aes maps passphrase a m disk in
        ((reply ≡ ok tt) × FileHolds after new) ⊎ ((is_err reply ≡ true) × FileHolds after old)
  flush-FileHolds a m disk old new h e = elim (flush_lem a m disk h.apart) [
    | inl (done, apart, (bytes, file, opens)) ↦ inl (
      done,
      record {
        back = opens.back;
        apart = apart;
        opened = ap contents file ∙ opens.opened;
        same = λ k. opens.same k ∙ e k;
      },
    )
    | inr (failed, apart, file) ↦ inr (
      failed,
      record { back = h.back; apart = apart; opened = ap contents file ∙ h.opened; same = h.same },
    )
  ]

  abbrev pub Found : Answers → Type 0
  Found a = a.is_found ≡ true

  abbrev pub Readable : Answers → Type 0
  Readable a = (a.is_found ≡ true) × (a.is_readable ≡ true)

  load_all-Readable :
      (a : Answers) (disk : Disk) (m : Map Text Bytes)
      → Readable a
      → contents disk.file ≡ ok m
      → load_all argon2 aes maps passphrase a disk ≡ ok m
  load_all-Readable a disk m r h = elim (load_all_cases a disk m r.0 h) [
    | inl loaded ↦ loaded
    | inr (unreadable, failed) ↦ absurd (ground (arith, r.1, unreadable))
  ]

  pub file_key_store-IsKeyStore :
      IsKeyStore (file_key_store argon2 aes maps passphrase) FileHolds Found Readable
  unfolding store load delete list
  file_key_store-IsKeyStore = record {
    store_lem = λ a key value disk values found h.
        elim (load_all_cases a disk h.back found h.opened) [
          | inr (r, failed) ↦ rw (failed, store) (inr (refl, h))
          | inl loaded ↦
              rw (loaded, store)
                (flush-FileHolds a (Map.insert h.back key value) disk values
                  (updated key (some value) values) h
                  (λ j.
                    get-insert h.back key j value
                    ∙ ap (λ o. if key == j then some value else o) (h.same j)))
        ];
    delete_lem = λ a key disk values found h. elim (load_all_cases a disk h.back found h.opened) [
      | inr (r, failed) ↦ rw (failed, delete) (inr (refl, h))
      | inl loaded ↦
          rw (loaded, delete)
            (flush-FileHolds a (Map.remove h.back key) disk values (updated key none values) h
              (λ j. get-remove h.back key j ∙ ap (λ o. if key == j then none else o) (h.same j)))
    ];
    load_lem = λ a key disk values r h.
        rw (load_all-Readable a disk h.back r h.opened) (ap ok (h.same key));
    list_lem = λ a key disk values r h. (
      map (λ e. e.0) h.back,
      rw (load_all-Readable a disk h.back r h.opened) refl,
      contains-keys h.back key ∙ ap is_some (h.same key),
    );
  }

  -- From a file that does not exist and whose path has another extension than `tmp`, and after any
  -- stores and deletions through the file, whichever of their reads, writes and renames fail, but none
  -- of which took an error of `Path::exists` for an absence, a load that finds the file and can read
  -- it gives the key the value of the last of these calls on it that was reported as done.
  pub load-run_file :
      (cs : List (Call Answers)) (a : Answers) (key : Text) (disk : Disk)
      → disk.is_own_tmp ≡ false
      → disk.file ≡ none
      → All (λ c. Found (answers_of (file_key_store argon2 aes maps passphrase) c)) cs
      → Readable a
      → let ks = file_key_store argon2 aes maps passphrase in
        load argon2 aes maps passphrase a key (run ks disk cs)
        ≡ ok (values_after ks disk (λ k. none) cs key)
  load-run_file cs a key disk apart missing found r =
      let ks = file_key_store argon2 aes maps passphrase in
      let start : FileHolds disk (λ k. none) = record {
        back = [];
        apart = apart;
        opened = ap contents missing;
        same = λ k. unfold Map.get in refl;
      } in
      load-run ks FileHolds Found Readable file_key_store-IsKeyStore disk (λ k. none) cs a key found
        start r
