-- ===== src/Base/Btree/Bulk.antt =====
-- Loops over a `BTreeMap`: removing the entries that pass a test, and putting entries back.
use mathlib.Core.List.{append_assoc}
use aegis_mesh.Base.Tests.{Bool-cases}
use aegis_mesh.Base.Lists.{filter, drop_first}
use aegis_mesh.Base.Btree.{
  Key, Tree, key_eq, Before, AllAfter, IsSorted, get, insert, remove, remove_all, insert_all, keys,
}
use Prim.Native.Nat.{ℕ, zero, suc}
use mathlib.Core.Path.{◌≡◌, refl, sym, ap, ◌∙◌, transport}
use mathlib.Core.Logic.{inl, inr}
use mathlib.Core.Bool.{Bool, true, false, not}
use mathlib.Core.List.{List, [], ◌∷◌, ◌++◌}
use mathlib.Core.Option.{some}
use native.Mathlib.Omega.{arith}

pub key_eq_self : (k : Key) → key_eq k k ≡ true
key_eq_self (p, i) = ground arith

pub key_eq-Before : (j k : Key) → Before j k → key_eq j k ≡ false
key_eq-Before (p, i) (q, l) b = ground arith

-- Every key of the list comes after `k`.
abbrev KeysAfter : Key → List Key → Type 0
KeysAfter k [] = Unit
KeysAfter k (j ∷ js) = Before k j × KeysAfter k js

module _ {ℓ} {V : Type ℓ} where
  pub get_first : (m : Tree V) (k : Key) (v : V) → get ((k, v) ∷ m) k ≡ some v
  unfolding get
  get_first m k v = rw (key_eq_self k) refl

  pub remove_first : (m : Tree V) (k : Key) (v : V) → remove ((k, v) ∷ m) k ≡ m
  unfolding remove
  remove_first m k v = rw (key_eq_self k) refl

  KeysAfter-keys :
      (k : Key) (p : Key × V → Bool) (m : Tree V) → AllAfter k m → KeysAfter k (keys (filter p m))
  KeysAfter-keys k p [] a = tt
  KeysAfter-keys k p (e ∷ m) a = ground (arith, KeysAfter-keys k p m a.1)

  remove_all-cons :
      (ks : List Key) (k : Key) (v : V) (m : Tree V)
      → KeysAfter k ks
      → remove_all ((k, v) ∷ m) ks ≡ (k, v) ∷ remove_all m ks
  unfolding remove_all remove
  remove_all-cons [] k v m a = refl
  remove_all-cons (j ∷ js) k v m a =
      rw (key_eq-Before k j a.0) (remove_all-cons js k v (remove m j) a.1)

  -- Removing the keys of the entries that pass a test leaves the others, in their order.
  pub remove_all-filter :
      (p : Key × V → Bool) (m : Tree V)
      → IsSorted m
      → remove_all m (keys (filter p m)) ≡ filter (λ e. not (p e)) m
  unfolding remove_all
  remove_all-filter p [] s = refl
  remove_all-filter p ((k, v) ∷ m) s = elim (Bool-cases (p (k, v))) [
    | inl hit ↦ rw hit (
        ap (λ (t : Tree V). remove_all t (keys (filter p m))) (remove_first m k v)
        ∙ remove_all-filter p m s.1)
    | inr miss ↦ rw miss (
        remove_all-cons (keys (filter p m)) k v m (KeysAfter-keys k p m s.0)
        ∙ ap (◌∷◌ (k, v)) (remove_all-filter p m s.1))
  ]

  AllAfter-middle : (j k : Key) (a b : Tree V) (v : V) → AllAfter j (a ++ (k, v) ∷ b) → Before j k
  AllAfter-middle j k [] b v h = h.0
  AllAfter-middle j k (e ∷ a) b v h = AllAfter-middle j k a b v h.1

  insert_between :
      (a b : Tree V) (k : Key) (v : V)
      → IsSorted (a ++ (k, v) ∷ b)
      → insert (a ++ b) k v ≡ a ++ (k, v) ∷ b
  unfolding insert
  insert_between [] [] k v s = refl
  insert_between [] (((p, i), w) ∷ b) (q, l) v s = ground arith
  insert_between (((p, i), w) ∷ a) b (q, l) v s =
      ground (arith, AllAfter-middle (p, i) (q, l) a b v s.0, insert_between a b (q, l) v s.1)

  AllAfter-drop_middle :
      (j : Key) (a es b : Tree V) → AllAfter j (a ++ (es ++ b)) → AllAfter j (a ++ b)
  AllAfter-drop_middle j [] [] b h = h
  AllAfter-drop_middle j [] (e ∷ es) b h = AllAfter-drop_middle j [] es b h.1
  AllAfter-drop_middle j (e ∷ a) es b h = (h.0, AllAfter-drop_middle j a es b h.1)

  drop_middle-IsSorted : (a es b : Tree V) → IsSorted (a ++ (es ++ b)) → IsSorted (a ++ b)
  drop_middle-IsSorted [] [] b s = s
  drop_middle-IsSorted [] (e ∷ es) b s = drop_middle-IsSorted [] es b s.1
  drop_middle-IsSorted ((j, w) ∷ a) es b s =
      (AllAfter-drop_middle j a es b s.0, drop_middle-IsSorted a es b s.1)

  -- Entries that came out of a tree in order go back to their places.
  pub insert_all-append :
      (a es b : Tree V) → IsSorted (a ++ (es ++ b)) → insert_all (a ++ b) es ≡ a ++ (es ++ b)
  unfolding insert_all
  insert_all-append a [] b s = refl
  insert_all-append a ((k, v) ∷ es) b s =
      let front = a ++ (k, v) ∷ [] in
      let shift = λ (c : Tree V). append_assoc a ((k, v) ∷ []) c in
      let sorted = transport (ap IsSorted (sym (shift (es ++ b)))) s in
      let between = transport (ap IsSorted (shift b)) (drop_middle-IsSorted front es b sorted) in
      ap (λ (m : Tree V). insert_all m es) (insert_between a b k v between ∙ sym (shift b))
      ∙ insert_all-append front es b sorted
      ∙ shift (es ++ b)

  AllAfter-drop_first :
      (j : Key) (n : ℕ) (p : Key × V → Bool) (m : Tree V)
      → AllAfter j m
      → AllAfter j (drop_first n p m)
  AllAfter-drop_first j n p [] a = tt
  AllAfter-drop_first j zero p (e ∷ m) a = ground (arith, AllAfter-drop_first j 0 p m a.1)
  AllAfter-drop_first j (suc n) p (e ∷ m) a =
      ground (arith, AllAfter-drop_first j n p m a.1, AllAfter-drop_first j (suc n) p m a.1)

  pub drop_first-IsSorted :
      (n : ℕ) (p : Key × V → Bool) (m : Tree V) → IsSorted m → IsSorted (drop_first n p m)
  drop_first-IsSorted n p [] s = tt
  drop_first-IsSorted zero p ((k, v) ∷ m) s =
      ground (arith, AllAfter-drop_first k 0 p m s.0, drop_first-IsSorted 0 p m s.1)
  drop_first-IsSorted (suc n) p ((k, v) ∷ m) s = ground (
    arith,
    AllAfter-drop_first k (suc n) p m s.0,
    drop_first-IsSorted n p m s.1,
    drop_first-IsSorted (suc n) p m s.1,
  )
