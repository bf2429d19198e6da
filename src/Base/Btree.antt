-- ===== src/Base/Btree.antt =====
-- `BTreeMap` under a key of two numbers, as the list of its entries in ascending order of the keys,
-- which is the order of its iterators.
pub mod Bulk
use aegis_mesh.Base.Tests.{ltb, if◌then◌else◌}
use aegis_mesh.Base.Lists.{length, filter, All, All-filter}
use aegis_mesh.Base.Equality.{◌==◌, nat_eq}
use Prim.Native.Nat.{ℕ, ◌+◌, ◌≤◌, ◌<◌}
use mathlib.Core.Path.{◌≡◌, refl, ap}
use mathlib.Core.Logic.{◌⊎◌}
use mathlib.Core.Bool.{Bool, true, false, not, ◌&&◌, ◌||◌}
use mathlib.Core.List.{List, [], ◌∷◌, ◌++◌, map}
use mathlib.Core.Option.{Option, none, some}
use native.Mathlib.Omega.{arith}

-- Keys compare by the first number, then by the second.
abbrev pub Key : Type 0
Key = ℕ × ℕ

abbrev pub key_lt : Key → Key → Bool
key_lt (p, i) (q, j) = ltb p q || p == q && ltb i j

abbrev pub key_eq : Key → Key → Bool
key_eq (p, i) (q, j) = p == q && i == j

abbrev pub Before : Key → Key → Type 0
Before (p, i) (q, j) = (p < q) ⊎ ((p ≡ q) × (i < j))

abbrev pub Tree {ℓ} : Type ℓ → Type ℓ
Tree V = List (Key × V)

module _ {ℓ} {V : Type ℓ} where
  unfoldable pub get : Tree V → Key → Option V
  get [] k = none
  get ((j, w) ∷ m) k = if key_eq j k then some w else get m k

  unfoldable pub insert : Tree V → Key → V → Tree V
  insert [] k v = (k, v) ∷ []
  insert ((j, w) ∷ m) k v =
      if key_lt k j
      then (k, v) ∷ (j, w) ∷ m
      else if key_eq j k
      then (k, v) ∷ m
      else (j, w) ∷ insert m k v

  unfoldable pub remove : Tree V → Key → Tree V
  remove [] k = []
  remove ((j, w) ∷ m) k = if key_eq j k then m else (j, w) ∷ remove m k

  abbrev pub keys : Tree V → List Key
  keys m = map (λ e. e.0) m

  -- `for k in ks { tree.remove(&k); }`
  unfoldable pub remove_all : Tree V → List Key → Tree V
  remove_all m [] = m
  remove_all m (k ∷ ks) = remove_all (remove m k) ks

  -- `for (k, v) in es { tree.insert(k, v); }`
  unfoldable pub insert_all : Tree V → List (Key × V) → Tree V
  insert_all m [] = m
  insert_all m ((k, v) ∷ es) = insert_all (insert m k v) es

  abbrev pub AllAfter : Key → Tree V → Type 0
  AllAfter k [] = Unit
  AllAfter k ((j, w) ∷ m) = Before k j × AllAfter k m

  abbrev pub IsSorted : Tree V → Type 0
  IsSorted [] = Unit
  IsSorted ((j, w) ∷ m) = AllAfter j m × IsSorted m

  AllAfter-trans : (j k : Key) (m : Tree V) → Before j k → AllAfter k m → AllAfter j m
  AllAfter-trans (p, i) (q, l) [] b a = tt
  AllAfter-trans (p, i) (q, l) (((r, x), w) ∷ m) b a =
      (omega arith, AllAfter-trans (p, i) (q, l) m b a.1)

  AllAfter-insert :
      (j k : Key) (m : Tree V) (v : V) → Before j k → AllAfter j m → AllAfter j (insert m k v)
  unfolding insert
  AllAfter-insert j k [] v b a = (b, tt)
  AllAfter-insert (p, i) (q, l) (((r, x), w) ∷ m) v b a =
      ground (arith, AllAfter-insert (p, i) (q, l) m v b a.1)

  pub insert-IsSorted : (m : Tree V) (k : Key) (v : V) → IsSorted m → IsSorted (insert m k v)
  unfolding insert
  insert-IsSorted [] k v s = (tt, tt)
  insert-IsSorted (((p, i), w) ∷ m) (q, l) v s = ground (
    arith,
    AllAfter-trans (q, l) (p, i) m,
    AllAfter-insert (p, i) (q, l) m v,
    insert-IsSorted m (q, l) v s.1,
  )

  AllAfter-remove : (j k : Key) (m : Tree V) → AllAfter j m → AllAfter j (remove m k)
  unfolding remove
  AllAfter-remove j k [] a = tt
  AllAfter-remove (p, i) (q, l) (((r, x), w) ∷ m) a =
      ground (arith, AllAfter-remove (p, i) (q, l) m a.1)

  pub remove-IsSorted : (m : Tree V) (k : Key) → IsSorted m → IsSorted (remove m k)
  unfolding remove
  remove-IsSorted [] k s = tt
  remove-IsSorted (((p, i), w) ∷ m) (q, l) s =
      ground (arith, AllAfter-remove (p, i) (q, l) m s.0, remove-IsSorted m (q, l) s.1)

  AllAfter-filter :
      (j : Key) (p : Key × V → Bool) (m : Tree V) → AllAfter j m → AllAfter j (filter p m)
  AllAfter-filter j p [] a = tt
  AllAfter-filter j p (e ∷ m) a = ground (arith, AllAfter-filter j p m a.1)

  pub filter-IsSorted : (p : Key × V → Bool) (m : Tree V) → IsSorted m → IsSorted (filter p m)
  filter-IsSorted p [] s = tt
  filter-IsSorted p ((j, w) ∷ m) s =
      ground (arith, AllAfter-filter j p m s.0, filter-IsSorted p m s.1)

  get-AllAfter : (k : Key) (m : Tree V) → AllAfter k m → get m k ≡ none
  unfolding get
  get-AllAfter k [] a = refl
  get-AllAfter (p, i) (((q, l), w) ∷ m) a = ground (arith, get-AllAfter (p, i) m a.1)

  -- Lookup after an insertion, in any tree.
  pub get-insert :
      (m : Tree V) (k j : Key) (v : V)
      → IsSorted m
      → get (insert m k v) j ≡ (if key_eq k j then some v else get m j)
  unfolding get insert
  get-insert [] k j v s = refl
  get-insert (((p, i), w) ∷ m) (q, l) (r, x) v s = ground (arith, get-insert m (q, l) (r, x) v s.1)

  pub length-insert-le : (m : Tree V) (k : Key) (v : V) → length (insert m k v) ≤ length m + 1
  unfolding insert
  length-insert-le [] k v = omega arith
  length-insert-le ((j, w) ∷ m) k v = ground (arith, length-insert-le m k v)

  remove-AllAfter : (k : Key) (m : Tree V) → AllAfter k m → remove m k ≡ m
  unfolding remove
  remove-AllAfter k [] a = refl
  remove-AllAfter (p, i) (((q, l), w) ∷ m) a = ground (arith, remove-AllAfter (p, i) m a.1)

  pub All-insert {κ} :
      (P : Key × V → Type κ) (m : Tree V) (k : Key) (v : V)
      → All P m
      → P (k, v)
      → All P (insert m k v)
  unfolding insert
  All-insert P [] k v a h = (h, tt)
  All-insert P ((j, w) ∷ m) k v a h = ground (arith, All-insert P m k v a.1 h)

  -- An insertion leaves the number of the entries that pass a test, or adds one, unless the entry
  -- fails the test.
  pub length-filter-insert :
      (p : Key × V → Bool) (m : Tree V) (k : Key) (v : V)
      → length (filter p (insert m k v)) ≤ length (filter p m) + (if p (k, v) then 1 else 0)
  unfolding insert
  length-filter-insert p [] k v = ground arith
  length-filter-insert p ((j, w) ∷ m) k v = ground (arith, length-filter-insert p m k v)

  -- An insertion at a key that is taken replaces the entry.
  pub length-insert :
      (m : Tree V) (k : Key) (v : V)
      → IsSorted m
      → length (insert m k v) ≡ elim (get m k) [ none ↦ length m + 1 | some w ↦ length m ]
  unfolding insert get
  length-insert [] k v s = refl
  length-insert (((p, i), w) ∷ m) (q, l) v s =
      ground
        (arith, get-AllAfter (q, l) m, AllAfter-trans (q, l) (p, i) m, length-insert m (q, l) v s.1)
