-- ===== src/Cli/Commands/Recovery.antt =====
-- aegis-mesh/crates/aegis-cli/src/commands/identity.rs: an identity that was created is shown again,
-- and is recovered from its mnemonic.
use aegis_mesh.Base.{
  ◌≡◌, ◌⊎◌, refl, ap, ◌∙◌, inl, inr, sym, arith, true, ltb, length, Bool-cases, Option-cases,
  Option, none, some, List, [], ◌∷◌,
}
use aegis_mesh.Base.Reply.{done, Reply-cases}
use aegis_mesh.Base.Text.{Bytes, Text}
use aegis_mesh.Config.{WriteAnswer, refused, torn, written, secure_write}
use aegis_mesh.Crypto.Identity.{
  Identity, Crates, BlobJson, from_mnemonic, to_encrypted_blob, from_encrypted_blob, slip_secret,
  derive_id, fingerprint,
}
use aegis_mesh.Crypto.Identity
use aegis_mesh.Crypto.Identity.Blob.{from_encrypted_blob-to_encrypted_blob, from_mnemonic_again}
use aegis_mesh.Crypto.Primitives.{Argon2, Aes256Gcm, Hex}
use aegis_mesh.Error.{ok, Result-cases}
use aegis_mesh.Cli.Commands.{
  Answers, Line, name_line, mnemonic_line, key_lines, read_identity_blob, write_identity_blob, made,
  create, unlocked, show, reveal, restored, import,
}

module _ (c : Crates) (argon2 : Argon2) (aes : Aes256Gcm) (fields : BlobJson) (hex : Hex) where
  WriteAnswer-cases :
      (w : WriteAnswer) → (w ≡ refused) ⊎ ((part : Bytes) × (w ≡ torn part)) ⊎ (w ≡ written)
  WriteAnswer-cases refused = inl refl
  WriteAnswer-cases (torn part) = inr (inl (part, refl))
  WriteAnswer-cases written = inr (inr refl)

  -- What is known of a creation that succeeded.
  record Created (a : Answers) (name : Text) (blob : Bytes) (lines : List Line) : Type 0 where
    identity : Identity
    passphrase : Text
    typed : a.passphrase ≡ some passphrase
    drawn : Identity.new c a.entropy name ≡ ok identity
    opens : from_encrypted_blob c argon2 aes fields blob passphrase ≡ ok identity
    shown : lines ≡ name_line identity.display_name ∷ key_lines c argon2 aes fields hex identity

  write_identity_blob_done :
      (a : Answers) (bytes : Bytes) (lines : List Line) (file after : Option Bytes)
      (out : List Line)
      → write_identity_blob a bytes lines file ≡ (after, done out)
      → (after ≡ some bytes) × (out ≡ lines)
  unfolding write_identity_blob secure_write
  write_identity_blob_done a bytes lines file after out h = elim (WriteAnswer-cases a.write) [
    | inl w ↦ absurd (ground (arith, w))
    | inr (inl (part, w)) ↦ absurd (ground (arith, w))
    | inr (inr w) ↦ ground (arith, w)
  ]

  unlocked_blob :
      (a : Answers) (blob : Bytes) (passphrase : Text) (identity : Identity)
      → a.is_readable ≡ true
      → a.passphrase ≡ some passphrase
      → from_encrypted_blob c argon2 aes fields blob passphrase ≡ ok identity
      → unlocked c argon2 aes fields hex a (some blob) ≡ done identity
  unfolding unlocked read_identity_blob
  unlocked_blob a blob passphrase identity r p o = rw (r, p, o) refl

  made-Parts :
      (a : Answers) (name : Text) (identity : Identity) (blob : Bytes)
      → made c argon2 aes fields hex a name ≡ done (identity, blob)
      → (passphrase : Text) × (a.passphrase ≡ some passphrase)
        × (Identity.new c a.entropy name ≡ ok identity)
        × (to_encrypted_blob c argon2 aes fields a.salt a.nonce identity passphrase ≡ ok blob)
  unfolding made
  made-Parts a name identity blob h = elim (Option-cases a.passphrase) [
    | inl e ↦ absurd (ground (arith, e))
    | inr (passphrase, e) ↦ elim (Bool-cases (ltb (length passphrase) 8)) [
      | inl short ↦ absurd (ground (arith, e, short))
      | inr long ↦ elim (Result-cases (Identity.new c a.entropy name)) [
        | inr (x, n) ↦ absurd (ground (arith, e, long, n))
        | inl (drawn, n) ↦
            elim (Result-cases
              (to_encrypted_blob c argon2 aes fields a.salt a.nonce drawn passphrase)) [
                | inr (x, s) ↦ absurd (ground (arith, e, long, n, s))
                | inl (bytes, s) ↦
                    let same : (drawn ≡ identity) × (bytes ≡ blob) =
                      ground (arith, e, long, n, s) in
                    (passphrase, e, n ∙ ap ok same.0, rw (← same.0, ← same.1) s)
              ]
      ]
    ]
  ]

  create-Created :
      (a : Answers) (name : Text) (blob : Bytes) (lines : List Line)
      → create c argon2 aes fields hex a name none ≡ (some blob, done lines)
      → Created a name blob lines
  unfolding create Identity.new
  create-Created a name blob lines h = elim (Reply-cases (made c argon2 aes fields hex a name)) [
    | inr (e, m) ↦ absurd (ground (arith, m))
    | inl ((identity, bytes), m) ↦
        let (passphrase, typed, drawn, sealed) = made-Parts a name identity bytes m in
        let lines_made =
          name_line identity.display_name ∷ key_lines c argon2 aes fields hex identity in
        let step : write_identity_blob a bytes lines_made none ≡ (some blob, done lines) =
          ground (arith, m) in
        let wrote = write_identity_blob_done a bytes lines_made none (some blob) lines step in
        let same : bytes ≡ blob = cc in
        record {
          identity = identity;
          passphrase = passphrase;
          typed = typed;
          drawn = drawn;
          opens =
              from_encrypted_blob-to_encrypted_blob c argon2 aes fields a.salt a.nonce identity
                passphrase blob a.salt_size a.nonce_size
                (from_mnemonic_again c name (c.bip39.from_entropy a.entropy) identity drawn)
                (sealed ∙ ap ok same);
          shown = wrote.1;
        }
  ]

  -- An identity that was created shows what its creation showed, and reveals its mnemonic, to whoever
  -- can read the file and types the passphrase of the creation.
  pub show-create :
      (a b : Answers) (name : Text) (blob : Bytes) (created : List Line)
      → create c argon2 aes fields hex a name none ≡ (some blob, done created)
      → b.is_readable ≡ true
      → b.passphrase ≡ a.passphrase
      → (show c argon2 aes fields hex b (some blob) ≡ done created)
        × ((m : Text) × (reveal c argon2 aes fields hex b (some blob)
              ≡ done (mnemonic_line m ∷ [])))
  unfolding show reveal
  show-create a b name blob created h r p =
      let k = create-Created a name blob created h in
      let opened = unlocked_blob b blob k.passphrase k.identity r (p ∙ k.typed) k.opens in
      (rw (opened, k.shown) refl, (k.identity.mnemonic, rw opened refl))

  restored-Parts :
      (a : Answers) (name mnemonic : Text) (identity : Identity) (blob : Bytes)
      → a.mnemonic ≡ some mnemonic
      → restored c argon2 aes fields hex a name ≡ done (identity, blob)
      → from_mnemonic c name mnemonic ≡ ok identity
  unfolding restored
  restored-Parts a name mnemonic identity blob t h = elim (Option-cases a.passphrase) [
    | inl e ↦ absurd (ground (arith, e))
    | inr (passphrase, e) ↦ elim (Bool-cases (ltb (length passphrase) 8)) [
      | inl short ↦ absurd (ground (arith, e, short))
      | inr long ↦ elim (Result-cases (from_mnemonic c name mnemonic)) [
        | inr (x, n) ↦ absurd (ground (arith, e, long, t, n))
        | inl (read, n) ↦
            elim (Result-cases
              (to_encrypted_blob c argon2 aes fields a.salt a.nonce read passphrase)) [
                | inr (x, s) ↦ absurd (ground (arith, e, long, t, n, s))
                | inl (bytes, s) ↦
                    let same : read ≡ identity = ground (arith, e, long, t, n, s) in n ∙ ap ok same
              ]
      ]
    ]
  ]

  import-Parts :
      (a : Answers) (name mnemonic : Text) (file after : Option Bytes) (lines : List Line)
      → a.mnemonic ≡ some mnemonic
      → import c argon2 aes fields hex a name file ≡ (after, done lines)
      → (identity : Identity) × (from_mnemonic c name mnemonic ≡ ok identity)
        × (lines ≡ key_lines c argon2 aes fields hex identity)
  unfolding import
  import-Parts a name mnemonic file after lines t h =
      elim (Reply-cases (restored c argon2 aes fields hex a name)) [
        | inr (e, m) ↦ absurd (ground (arith, m))
        | inl ((identity, bytes), m) ↦
            let lines_made = key_lines c argon2 aes fields hex identity in
            let step : write_identity_blob a bytes lines_made file ≡ (after, done lines) =
              ground (arith, m) in
            let wrote = write_identity_blob_done a bytes lines_made file after lines step in
            (identity, restored-Parts a name mnemonic identity bytes t m, wrote.1)
      ]

  from_mnemonic-Fields :
      (name sentence : Text) (identity : Identity)
      → from_mnemonic c name sentence ≡ ok identity
      → (c.bip39.parse_normalized sentence ≡ some identity.mnemonic)
        × (identity.signing_key ≡ slip_secret c identity.mnemonic)
        × (identity.id ≡ derive_id c (c.ed.verifying_key identity.signing_key))
        × (identity.display_name ≡ name)
  unfolding from_mnemonic
  from_mnemonic-Fields name sentence identity h =
      elim (Option-cases (c.bip39.parse_normalized sentence)) [
        | inl e ↦ absurd (ground (arith, e))
        | inr (mnemonic, e) ↦ ground (arith, e)
      ]

  -- The keys of an identity do not depend on the display name.
  key_lines-from_mnemonic :
      (name name' sentence : Text) (first second : Identity)
      → from_mnemonic c name sentence ≡ ok first
      → from_mnemonic c name' first.mnemonic ≡ ok second
      → key_lines c argon2 aes fields hex second ≡ key_lines c argon2 aes fields hex first
  unfolding fingerprint Identity.verifying_key
  key_lines-from_mnemonic name name' sentence first second h h' =
      let f = from_mnemonic-Fields name sentence first h in
      let g = from_mnemonic-Fields name' first.mnemonic second h' in
      let again = c.bip39.parse_normalized_idem sentence first.mnemonic f.0 in
      let mnemonics : second.mnemonic ≡ first.mnemonic = cc in
      let keys : second.signing_key ≡ first.signing_key =
        g.1 ∙ ap (slip_secret c) mnemonics ∙ sym f.1 in
      let ids : second.id ≡ first.id =
        g.2 ∙ ap (λ k. derive_id c (c.ed.verifying_key k)) keys ∙ sym f.2 in
      rw (ids, keys) refl

  -- Recovery: whoever imports the mnemonic that the file of a created identity reveals, under any
  -- name and passphrase, and over any file, is shown the identifier and the fingerprint that the
  -- creation showed.
  pub import-create :
      (a b d : Answers) (name name' m : Text) (blob : Bytes) (file after : Option Bytes)
      (created imported : List Line)
      → create c argon2 aes fields hex a name none ≡ (some blob, done created)
      → b.is_readable ≡ true
      → b.passphrase ≡ a.passphrase
      → reveal c argon2 aes fields hex b (some blob) ≡ done (mnemonic_line m ∷ [])
      → d.mnemonic ≡ some m
      → import c argon2 aes fields hex d name' file ≡ (after, done imported)
      → created ≡ name_line name ∷ imported
  unfolding reveal Identity.new
  import-create a b d name name' m blob file after created imported h r p told t h' =
      let k = create-Created a name blob created h in
      let opened = unlocked_blob b blob k.passphrase k.identity r (p ∙ k.typed) k.opens in
      let same : k.identity.mnemonic ≡ m = ground (arith, opened) in
      let (second, read, lines) = import-Parts d name' m file after imported t h' in
      let keys =
        key_lines-from_mnemonic name name' (c.bip39.from_entropy a.entropy) k.identity second
          k.drawn (rw same read) in
      let named : k.identity.display_name ≡ name =
        (from_mnemonic-Fields name (c.bip39.from_entropy a.entropy) k.identity k.drawn).3 in
      rw (← named, lines) (k.shown ∙ ap (λ l. name_line k.identity.display_name ∷ l) (sym keys))
