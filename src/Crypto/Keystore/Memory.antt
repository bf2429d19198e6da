-- ===== src/Crypto/Keystore/Memory.antt =====
-- aegis-mesh/crates/aegis-core/src/crypto/keystore.rs: `MemoryKeyStore`, which keeps the values in a
-- map under a mutex.
use aegis_mesh.Base.{
  ◌≡◌, refl, ap, ◌∙◌, arith, Bool, false, Option, none, some, List, [], ◌∷◌, map, contains, inl,
  inr, Bool-cases, ◌==◌, nat_eq, list_eq, if◌then◌else◌,
}
use aegis_mesh.Base.Map
use aegis_mesh.Base.Map.{Map, get-insert, get-remove}
use aegis_mesh.Base.Text.{Text, Bytes}
use aegis_mesh.Error.{Result, ok, err, storage}
use aegis_mesh.Crypto.Keystore.{KeyStore, Values, is_some, IsKeyStore}

abbrev pub MemoryKeyStore : Type 0
MemoryKeyStore = Map Text Bytes

unfoldable pub new : MemoryKeyStore
new = []

-- Whether the mutex is poisoned.
unfoldable pub store : Bool → Text → Bytes → MemoryKeyStore → MemoryKeyStore × Result (Unit {0})
store is_poisoned key value inner =
    if is_poisoned then (inner, err storage) else (Map.insert inner key value, ok tt)

unfoldable pub load : Bool → Text → MemoryKeyStore → Result (Option Bytes)
load is_poisoned key inner = if is_poisoned then err storage else ok (Map.get inner key)

unfoldable pub delete : Bool → Text → MemoryKeyStore → MemoryKeyStore × Result (Unit {0})
delete is_poisoned key inner =
    if is_poisoned then (inner, err storage) else (Map.remove inner key, ok tt)

unfoldable pub list : Bool → MemoryKeyStore → Result (List Text)
list is_poisoned inner = if is_poisoned then err storage else ok (map (λ e. e.0) inner)

unfoldable pub clear : Bool → MemoryKeyStore → MemoryKeyStore
clear is_poisoned inner = if is_poisoned then inner else []

abbrev pub memory_key_store : KeyStore MemoryKeyStore Bool
memory_key_store = record { store = store; load = load; delete = delete; list = list }

pub contains-keys :
    (m : Map Text Bytes) (key : Text) → contains (map (λ e. e.0) m) key ≡ is_some (Map.get m key)
unfolding contains Map.get
contains-keys [] key = refl
contains-keys ((k, v) ∷ m) key = ground (arith, contains-keys m key)

abbrev pub Holds : MemoryKeyStore → Values → Type 0
Holds inner values = (j : Text) → Map.get inner j ≡ values j

abbrev pub Sound : Bool → Type 0
Sound is_poisoned = is_poisoned ≡ false

pub memory_key_store-IsKeyStore : IsKeyStore memory_key_store Holds (λ a. Unit) Sound
unfolding store load delete list
memory_key_store-IsKeyStore = record {
  store_lem = λ a key value s values sound h. elim (Bool-cases a) [
    | inl p ↦ rw p (inr (refl, h))
    | inr p ↦ rw p (
        inl (
          refl,
          λ j. get-insert s key j value ∙ ap (λ o. if key == j then some value else o) (h j),
        ))
  ];
  delete_lem = λ a key s values sound h. elim (Bool-cases a) [
    | inl p ↦ rw p (inr (refl, h))
    | inr p ↦
        rw p (inl (refl, λ j. get-remove s key j ∙ ap (λ o. if key == j then none else o) (h j)))
  ];
  load_lem = λ a key s values p h. rw p (ap ok (h key));
  list_lem =
      λ a key s values p h. (map (λ e. e.0) s, rw p refl, contains-keys s key ∙ ap is_some (h key));
}
