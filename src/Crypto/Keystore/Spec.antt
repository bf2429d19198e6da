-- ===== src/Crypto/Keystore/Spec.antt =====
-- aegis-mesh/crates/aegis-core/src/crypto/keystore.rs: what a client of any key store reads.
use aegis_mesh.Base.{
  All, ◌≡◌, true, none, some, List, [], ◌∷◌, ◌⊎◌, inl, inr, nat_eq, list_eq, if◌then◌else◌,
}
use aegis_mesh.Base.Text.{Text, Bytes}
use aegis_mesh.Error.{Result, ok, is_err}
use aegis_mesh.Crypto.Keystore.{KeyStore, Values, updated, IsKeyStore}

pub data Call (A : Type 0) : Type 0 where
  stored : A → Text → Bytes → Call A
  deleted : A → Text → Call A

module _ {S A : Type 0} (ks : KeyStore S A) where
  abbrev pub perform : S → Call A → S × Result (Unit {0})
  perform s (stored a key value) = ks.store a key value s
  perform s (deleted a key) = ks.delete a key s

  abbrev pub effect : Call A → Values → Values
  effect (stored a key value) values = updated key (some value) values
  effect (deleted a key) values = updated key none values

  unfoldable pub run : S → List (Call A) → S
  run s [] = s
  run s (c ∷ cs) = run (perform s c).0 cs

  -- The values after some calls, of which those count that were reported as done.
  unfoldable pub values_after : S → Values → List (Call A) → Values
  values_after s values [] = values
  values_after s values (c ∷ cs) =
      let (after, reply) = perform s c in
      values_after after (if is_err reply then values else effect c values) cs

  abbrev pub answers_of : Call A → A
  answers_of (stored a key value) = a
  answers_of (deleted a key) = a

  module _ (Holds : S → Values → Type 0) (Sound Fine : A → Type 0)
      (laws : IsKeyStore ks Holds Sound Fine) where
    settle :
        (after : S) (r : Result (Unit {0})) (old new : Values)
        → ((r ≡ ok tt) × Holds after new) ⊎ ((is_err r ≡ true) × Holds after old)
        → Holds after (if is_err r then old else new)
    settle after r old new (inl (done, h)) = rw done h
    settle after r old new (inr (failed, h)) = rw failed h

    perform-Holds :
        (s : S) (values : Values) (c : Call A)
        → Sound (answers_of c)
        → Holds s values
        → Holds (perform s c).0 (if is_err (perform s c).1 then values else effect c values)
    perform-Holds s values (stored a key value) sound h =
        settle _ _ values (updated key (some value) values)
          (laws.store_lem a key value s values sound h)
    perform-Holds s values (deleted a key) sound h =
        settle _ _ values (updated key none values) (laws.delete_lem a key s values sound h)

    pub run-Holds :
        (s : S) (values : Values) (cs : List (Call A))
        → All (λ c. Sound (answers_of c)) cs
        → Holds s values
        → Holds (run s cs) (values_after s values cs)
    unfolding run values_after
    run-Holds s values [] sound h = h
    run-Holds s values (c ∷ cs) sound h =
        run-Holds (perform s c).0 (if is_err (perform s c).1 then values else effect c values) cs
          sound.1 (perform-Holds s values c sound.0 h)

    pub load-run :
        (s : S) (values : Values) (cs : List (Call A)) (a : A) (key : Text)
        → All (λ c. Sound (answers_of c)) cs
        → Holds s values
        → Fine a
        → ks.load a key (run s cs) ≡ ok (values_after s values cs key)
    load-run s values cs a key sound h fine =
        laws.load_lem a key (run s cs) (values_after s values cs) fine
          (run-Holds s values cs sound h)
