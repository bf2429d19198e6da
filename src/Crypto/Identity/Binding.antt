-- ===== src/Crypto/Identity/Binding.antt =====
-- aegis-mesh/crates/aegis-core/src/crypto/identity.rs: identifiers are bound to keys.
use aegis_mesh.Base.{
  ◌≡◌, sym, ◌∙◌, arith, true, length, Option-cases, inl, inr, ==_iff, nat_eq, list_eq,
}
use aegis_mesh.Base.Text.{Bytes, Text}
use aegis_mesh.Error.{ok, Result-cases}
use aegis_mesh.Crypto.Identity.{
  Identity, PublicIdentity, Crates, derive_id, from_mnemonic, new, verifying_key, sign, verify,
  public_view, verify_public, verify_id_binding, from_bytes,
}

module _ (c : Crates) where
  -- What a mnemonic makes: the fields, and the mnemonic makes the identity again.
  pub record IsDerived (identity : Identity) : Type 0 where
    pub again : from_mnemonic c identity.display_name identity.mnemonic ≡ ok identity
    pub bound : identity.id ≡ derive_id c (verifying_key c identity)

  pub from_mnemonic-IsDerived :
      (display_name sentence : Text) (identity : Identity)
      → from_mnemonic c display_name sentence ≡ ok identity
      → IsDerived identity
  unfolding from_mnemonic verifying_key
  from_mnemonic-IsDerived display_name sentence identity h =
      elim (Option-cases (c.bip39.parse_normalized sentence)) [
        | inl failed ↦ absurd (ground (arith, failed))
        | inr (m, e) ↦
            let i = c.bip39.parse_normalized_idem sentence m e in
            record { again = ground (arith, e, i); bound = ground (arith, e, i) }
      ]

  -- The public view of an identity that a mnemonic makes passes its check, its key accepts what the
  -- identity signs, and the display name does not change the identifier.
  pub public_view_lem :
      (display_name other_name sentence : Text) (identity : Identity) (msg : Bytes)
      → from_mnemonic c display_name sentence ≡ ok identity
      → (verify_id_binding c (public_view c identity) ≡ true)
        × (verify_public c (public_view c identity) msg (sign c identity msg) ≡ true)
        × (verify c identity msg (sign c identity msg) ≡ true)
        × (from_mnemonic c other_name sentence ≡ ok (record identity { display_name = other_name }))
  unfolding public_view verify_id_binding verify_public verify sign verifying_key from_mnemonic
      derive_id from_bytes
  public_view_lem display_name other_name sentence identity msg h =
      let d = from_mnemonic-IsDerived display_name sentence identity h in
      (
        (==_iff _ identity.id).1 (sym d.bound),
        rw (c.ed.verifying_key-valid identity.signing_key)
            (c.ed.sign-verify identity.signing_key msg),
        c.ed.sign-verify identity.signing_key msg,
        elim (Option-cases (c.bip39.parse_normalized sentence)) [
          | inl failed ↦ absurd (ground (arith, failed))
          | inr (m, e) ↦ ground (arith, e)
        ],
      )

  -- With 32 random bytes a new identity is always made.
  pub new_total :
      (entropy : Bytes) (display_name : Text)
      → length entropy ≡ 32
      → (identity : Identity) × (new c entropy display_name ≡ ok identity)
  unfolding new from_mnemonic
  new_total entropy display_name h = elim (Result-cases (new c entropy display_name)) [
    | inl made ↦ made
    | inr (e, failed) ↦ absurd (ground (arith, failed, c.bip39.from_entropy-parse entropy h))
  ]

  -- Where the hash of keys is injective, an identifier belongs to one key: two public identities that
  -- pass the check and have one identifier have one key.
  pub verify_id_binding-injective :
      (p q : PublicIdentity)
      → ((a b : Bytes)
          → c.hash.hex_encode (c.hash.sha256 a) ≡ c.hash.hex_encode (c.hash.sha256 b)
          → a ≡ b)
      → verify_id_binding c p ≡ true
      → verify_id_binding c q ≡ true
      → p.id ≡ q.id
      → p.verifying_key ≡ q.verifying_key
  unfolding verify_id_binding
  verify_id_binding-injective p q injective hp hq e =
      injective p.verifying_key q.verifying_key
        ((==_iff _ p.id).0 hp ∙ e ∙ sym ((==_iff _ q.id).0 hq))
