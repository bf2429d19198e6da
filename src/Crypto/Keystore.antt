-- ===== src/Crypto/Keystore.antt =====
-- aegis-mesh/crates/aegis-core/src/crypto/keystore.rs: the trait of key stores, and what a store owes
-- to its clients. `File` and `Memory` are the implementations.
pub mod Spec
pub mod File
pub mod Memory
use aegis_mesh.Base.{
  ◌≡◌, ◌↔◌, ◌⊎◌, Bool, true, false, Option, none, some, List, contains, ◌==◌, nat_eq, list_eq,
  if◌then◌else◌,
}
use aegis_mesh.Base.Text.{Text, Bytes}
use aegis_mesh.Error.{Result, ok, is_err}

-- The trait, for a state `S` and what the world answers to a call, `A`.
pub record KeyStore (S A : Type 0) : Type 0 where
  pub store : A → Text → Bytes → S → S × Result (Unit {0})
  pub load : A → Text → S → Result (Option Bytes)
  pub delete : A → Text → S → S × Result (Unit {0})
  pub list : A → S → Result (List Text)

-- The view of a client: the value of each key.
abbrev pub Values : Type 0
Values = Text → Option Bytes

abbrev pub updated : Text → Option Bytes → Values → Values
updated key value values j = if key == j then value else values j

abbrev pub is_some : Option Bytes → Bool
is_some none = false
is_some (some v) = true

-- Where the world is sound, a call takes effect and is reported as done, or fails and changes no value;
-- what is read is what the values say, and a reading fails only where the world lets it.
pub record IsKeyStore {S A : Type 0} (ks : KeyStore S A) (Holds : S → Values → Type 0)
    (Sound Fine : A → Type 0) : Type 0 where
  pub store_lem :
      (a : A) (key : Text) (value : Bytes) (s : S) (values : Values)
      → Sound a
      → Holds s values
      → (((ks.store a key value s).1 ≡ ok tt)
          × Holds (ks.store a key value s).0 (updated key (some value) values))
        ⊎ ((is_err (ks.store a key value s).1 ≡ true) × Holds (ks.store a key value s).0 values)
  pub delete_lem :
      (a : A) (key : Text) (s : S) (values : Values)
      → Sound a
      → Holds s values
      → (((ks.delete a key s).1 ≡ ok tt) × Holds (ks.delete a key s).0 (updated key none values))
        ⊎ ((is_err (ks.delete a key s).1 ≡ true) × Holds (ks.delete a key s).0 values)
  pub load_lem :
      (a : A) (key : Text) (s : S) (values : Values)
      → Fine a
      → Holds s values
      → ks.load a key s ≡ ok (values key)
  pub list_lem :
      (a : A) (key : Text) (s : S) (values : Values)
      → Fine a
      → Holds s values
      → (keys : List Text) × (ks.list a s ≡ ok keys) × (contains keys key ≡ is_some (values key))
