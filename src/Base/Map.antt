-- ===== src/Base/Map.antt =====
-- `HashMap` as an association list with distinct keys. The order of the entries stands for the
-- iteration order, which the program leaves open.
use aegis_mesh.Base.Tests.{if◌then◌else◌}
use aegis_mesh.Base.Lists.{length, All, All-map}
use aegis_mesh.Base.Equality.{PartialEq, ◌==◌}
use Prim.Native.Nat.{suc, ◌+◌, ◌≤◌}
use mathlib.Core.Path.{◌≡◌, refl, ap}
use mathlib.Core.Bool.{Bool, true, false}
use mathlib.Core.List.{List, [], ◌∷◌, map}
use mathlib.Core.Option
use mathlib.Core.Option.{Option, none, some}
use native.Mathlib.Omega.{arith}

abbrev pub Map {ℓ κ} : Type ℓ → Type κ → Type (ℓ ⊔ κ)
Map K V = List (K × V)

module _ {ℓ κ} {K : Type ℓ} {V : Type κ} ⦃e : PartialEq K⦄ where
  unfoldable pub get : Map K V → K → Option V
  get [] k = none
  get ((j, v) ∷ m) k = if j == k then some v else get m k

  unfoldable pub insert : Map K V → K → V → Map K V
  insert [] k v = (k, v) ∷ []
  insert ((j, w) ∷ m) k v = if j == k then (k, v) ∷ m else (j, w) ∷ insert m k v

  unfoldable pub remove : Map K V → K → Map K V
  remove [] k = []
  remove ((j, w) ∷ m) k = if j == k then remove m k else (j, w) ∷ remove m k

  -- `get_mut` with a write through the reference
  unfoldable pub modify : Map K V → K → (V → V) → Map K V
  modify [] k f = []
  modify ((j, w) ∷ m) k f = if j == k then (j, f w) ∷ m else (j, w) ∷ modify m k f

  unfoldable pub retain : (K → V → Bool) → Map K V → Map K V
  retain p [] = []
  retain p ((j, w) ∷ m) = if p j w then (j, w) ∷ retain p m else retain p m

  unfoldable pub contains_key : Map K V → K → Bool
  contains_key [] k = false
  contains_key ((j, w) ∷ m) k = if j == k then true else contains_key m k

  pub get-insert :
      (m : Map K V) (k j : K) (v : V) → get (insert m k v) j ≡ (if k == j then some v else get m j)
  unfolding get insert
  get-insert [] k j v = refl
  get-insert ((i, w) ∷ m) k j v =
      ground (arith, e.test_iff k j, e.test_iff i k, e.test_iff i j, get-insert m k j v)

  pub get-remove : (m : Map K V) (k j : K) → get (remove m k) j ≡ (if k == j then none else get m j)
  unfolding get remove
  get-remove [] k j = ground arith
  get-remove ((i, w) ∷ m) k j =
      ground (arith, e.test_iff k j, e.test_iff i k, e.test_iff i j, get-remove m k j)

  pub get-modify :
      (m : Map K V) (k j : K) (f : V → V)
      → get (modify m k f) j ≡ (if k == j then Option.map f (get m j) else get m j)
  unfolding get modify
  get-modify [] k j f = ground arith
  get-modify ((i, w) ∷ m) k j f =
      ground (arith, e.test_iff k j, e.test_iff i k, e.test_iff i j, get-modify m k j f)

  pub contains_key-get :
      (m : Map K V) (k : K) → contains_key m k ≡ elim (get m k) [ none ↦ false | some v ↦ true ]
  unfolding get contains_key
  contains_key-get [] k = refl
  contains_key-get ((i, w) ∷ m) k = ground (arith, contains_key-get m k)

  -- No key stands twice.
  abbrev pub IsDistinct : Map K V → Type (ℓ ⊔ κ)
  IsDistinct [] = Unit
  IsDistinct ((j, w) ∷ m) = (get m j ≡ none) × IsDistinct m

  pub insert-IsDistinct : (m : Map K V) (k : K) (v : V) → IsDistinct m → IsDistinct (insert m k v)
  unfolding get insert
  insert-IsDistinct [] k v h = (refl, tt)
  insert-IsDistinct ((i, w) ∷ m) k v h =
      ground
        (arith, get-insert m k i v, e.test_iff i k, e.test_iff k i, insert-IsDistinct m k v h.1)

  pub remove-IsDistinct : (m : Map K V) (k : K) → IsDistinct m → IsDistinct (remove m k)
  unfolding get remove
  remove-IsDistinct [] k h = tt
  remove-IsDistinct ((i, w) ∷ m) k h = ground (arith, get-remove m k i, remove-IsDistinct m k h.1)

  pub modify-IsDistinct :
      (m : Map K V) (k : K) (f : V → V) → IsDistinct m → IsDistinct (modify m k f)
  unfolding get modify
  modify-IsDistinct [] k f h = tt
  modify-IsDistinct ((i, w) ∷ m) k f h =
      ground (arith, get-modify m k i f, modify-IsDistinct m k f h.1)

  get-retain-none :
      (p : K → V → Bool) (m : Map K V) (k : K) → get m k ≡ none → get (retain p m) k ≡ none
  unfolding get retain
  get-retain-none p [] k h = refl
  get-retain-none p ((i, w) ∷ m) k h = ground (arith, get-retain-none p m k)

  pub retain-IsDistinct : (p : K → V → Bool) (m : Map K V) → IsDistinct m → IsDistinct (retain p m)
  unfolding get retain
  retain-IsDistinct p [] h = tt
  retain-IsDistinct p ((i, w) ∷ m) h =
      ground (arith, get-retain-none p m i h.0, retain-IsDistinct p m h.1)

  abbrev pub keep_if : (K → V → Bool) → K → Option V → Option V
  keep_if p k none = none
  keep_if p k (some v) = if p k v then some v else none

  pub get-retain :
      (p : K → V → Bool) (m : Map K V) (k : K)
      → IsDistinct m
      → get (retain p m) k ≡ keep_if p k (get m k)
  unfolding get retain
  get-retain p [] k h = refl
  get-retain p ((i, w) ∷ m) k h =
      ground (arith, e.test_iff i k, get-retain-none p m k, get-retain p m k h.1)

  pub length-insert :
      (m : Map K V) (k : K) (v : V)
      → length (insert m k v) ≡ (if contains_key m k then length m else length m + 1)
  unfolding insert contains_key
  length-insert [] k v = refl
  length-insert ((i, w) ∷ m) k v = ground (arith, length-insert m k v)

  pub length-remove-le : (m : Map K V) (k : K) → length (remove m k) ≤ length m
  unfolding remove
  length-remove-le [] k = omega arith
  length-remove-le ((i, w) ∷ m) k = ground (arith, length-remove-le m k)

  pub length-remove-lt :
      (m : Map K V) (k : K) → contains_key m k ≡ true → length (remove m k) + 1 ≤ length m
  unfolding remove contains_key
  length-remove-lt [] k h = cc
  length-remove-lt ((i, w) ∷ m) k h = ground (arith, length-remove-le m k, length-remove-lt m k)

  pub length-modify : (m : Map K V) (k : K) (f : V → V) → length (modify m k f) ≡ length m
  unfolding modify
  length-modify [] k f = refl
  length-modify ((i, w) ∷ m) k f = ground (arith, length-modify m k f)

  -- Every entry is what the lookup of its key gives.
  pub get-entries : (m : Map K V) → IsDistinct m → All (λ e. get m e.0 ≡ some e.1) m
  unfolding get
  get-entries [] h = tt
  get-entries ((j, w) ∷ m) h = (
    ground (arith, e.test_iff j j),
    All-map (λ x. get m x.0 ≡ some x.1) _ m (λ x g. ground (arith, e.test_iff j x.0, h.0, g))
        (get-entries m h.1),
  )

  abbrev pub map_values : (K → V → V) → Map K V → Map K V
  map_values f m = map (λ x. (x.0, f x.0 x.1)) m

  pub get-map_values :
      (f : K → V → V) (m : Map K V) (k : K) → get (map_values f m) k ≡ Option.map (f k) (get m k)
  unfolding get
  get-map_values f [] k = refl
  get-map_values f ((i, w) ∷ m) k = ground (arith, e.test_iff i k, get-map_values f m k)

  pub map_values-IsDistinct :
      (f : K → V → V) (m : Map K V) → IsDistinct m → IsDistinct (map_values f m)
  unfolding get
  map_values-IsDistinct f [] h = tt
  map_values-IsDistinct f ((i, w) ∷ m) h =
      ground (arith, get-map_values f m i, map_values-IsDistinct f m h.1)

  pub length-map_values : (f : K → V → V) (m : Map K V) → length (map_values f m) ≡ length m
  length-map_values f [] = refl
  length-map_values f (x ∷ m) = ap suc (length-map_values f m)

pub ruleset map_laws = (get-insert, get-remove, get-modify)
