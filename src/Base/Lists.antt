-- ===== src/Base/Lists.antt =====
-- Lists measured by native numbers, and filtered by Boolean tests.
use Prim.Native.Nat.{ℕ, zero, suc, ◌+◌, ◌-◌, ◌≤◌}
use mathlib.Core.Path.{◌≡◌, refl, ap, sym, ◌∙◌}
use mathlib.Core.Bool.{Bool, true, not}
use mathlib.Core.List.{List, [], ◌∷◌, ◌++◌, map}
use native.Mathlib.Omega.{arith}
use aegis_mesh.Base.Tests.{if◌then◌else◌}

module _ {ℓ} {A : Type ℓ} where
  abbrev pub length : List A → ℕ
  length [] = 0
  length (x ∷ xs) = suc (length xs)

  abbrev pub take : ℕ → List A → List A
  take zero xs = []
  take (suc n) [] = []
  take (suc n) (x ∷ xs) = x ∷ take n xs

  abbrev pub drop : ℕ → List A → List A
  drop zero xs = xs
  drop (suc n) [] = []
  drop (suc n) (x ∷ xs) = drop n xs

  abbrev pub replicate : ℕ → A → List A
  replicate zero a = []
  replicate (suc n) a = a ∷ replicate n a

  abbrev pub filter : (A → Bool) → List A → List A
  filter p [] = []
  filter p (x ∷ xs) = if p x then x ∷ filter p xs else filter p xs

  -- A predicate on every element, by recursion, which the tactics read and build.
  abbrev pub All {κ} : (A → Type κ) → List A → Type κ
  All P [] = Unit
  All P (x ∷ xs) = P x × All P xs

  pub length-append : (xs ys : List A) → length (xs ++ ys) ≡ length xs + length ys
  length-append [] ys = omega arith
  length-append (x ∷ xs) ys = omega (arith, length-append xs ys)

module _ {ℓ} {A : Type ℓ} where
  pub length-filter-le : (p : A → Bool) (xs : List A) → length (filter p xs) ≤ length xs
  length-filter-le p [] = omega arith
  length-filter-le p (x ∷ xs) = ground (arith, length-filter-le p xs)

  pub length-filter-not :
      (p : A → Bool) (xs : List A)
      → length (filter p xs) + length (filter (λ x. not (p x)) xs) ≡ length xs
  length-filter-not p [] = omega arith
  length-filter-not p (x ∷ xs) = ground (arith, length-filter-not p xs)

  pub filter-append :
      (p : A → Bool) (xs ys : List A) → filter p (xs ++ ys) ≡ filter p xs ++ filter p ys
  filter-append p [] ys = refl
  filter-append p (x ∷ xs) ys = ground (arith, filter-append p xs ys)

  pub filter-All : (p : A → Bool) (xs : List A) → All (λ x. p x ≡ true) (filter p xs)
  filter-All p [] = tt
  filter-All p (x ∷ xs) = ground (arith, filter-All p xs)

  pub All-filter {κ} :
      (P : A → Type κ) (p : A → Bool) (xs : List A) → All P xs → All P (filter p xs)
  All-filter P p [] h = h
  All-filter P p (x ∷ xs) h = ground (arith, All-filter P p xs h.1)

  pub All-append {κ} : (P : A → Type κ) (xs ys : List A) → All P xs → All P ys → All P (xs ++ ys)
  All-append P [] ys hx hy = hy
  All-append P (x ∷ xs) ys hx hy = (hx.0, All-append P xs ys hx.1 hy)

  pub length-drop : (n : ℕ) (xs : List A) → length (drop n xs) ≡ length xs - n
  length-drop zero xs = omega arith
  length-drop (suc n) [] = omega arith
  length-drop (suc n) (x ∷ xs) = omega (arith, length-drop n xs)

  pub drop-append : (xs ys : List A) → drop (length xs) (xs ++ ys) ≡ ys
  drop-append [] ys = refl
  drop-append (x ∷ xs) ys = drop-append xs ys

  pub take-append : (xs ys : List A) → take (length xs) (xs ++ ys) ≡ xs
  take-append [] ys = refl
  take-append (x ∷ xs) ys = ap (◌∷◌ x) (take-append xs ys)

-- The list without the first `n` of the elements that pass a test.
abbrev pub drop_first {ℓ} : {A : Type ℓ} → ℕ → (A → Bool) → List A → List A
drop_first n p [] = []
drop_first n p (x ∷ xs) =
    if p x then elim n [ zero ↦ x ∷ xs | suc m ↦ drop_first m p xs ] else x ∷ drop_first n p xs

pub drop_first_zero {ℓ} : {A : Type ℓ} (p : A → Bool) (xs : List A) → drop_first 0 p xs ≡ xs
drop_first_zero p [] = refl
drop_first_zero p (x ∷ xs) = ground (arith, drop_first_zero p xs)

pub All-drop_first {ℓ κ} :
    {A : Type ℓ} (P : A → Type κ) (n : ℕ) (p : A → Bool) (xs : List A)
    → All P xs
    → All P (drop_first n p xs)
All-drop_first P n p [] h = h
All-drop_first P zero p (x ∷ xs) h = ground (arith, All-drop_first P 0 p xs h.1)
All-drop_first P (suc n) p (x ∷ xs) h =
    ground (arith, All-drop_first P n p xs h.1, All-drop_first P (suc n) p xs h.1)

pub length-drop_first-le {ℓ} :
    {A : Type ℓ} (n : ℕ) (p : A → Bool) (xs : List A) → length (drop_first n p xs) ≤ length xs
length-drop_first-le n p [] = omega arith
length-drop_first-le zero p (x ∷ xs) = ground (arith, length-drop_first-le 0 p xs)
length-drop_first-le (suc n) p (x ∷ xs) =
    ground (arith, length-drop_first-le n p xs, length-drop_first-le (suc n) p xs)

pub All-map {ℓ κ μ} :
    {A : Type ℓ} (P : A → Type κ) (Q : A → Type μ) (xs : List A)
    → ((x : A) → P x → Q x)
    → All P xs
    → All Q xs
All-map P Q [] f h = tt
All-map P Q (x ∷ xs) f h = (f x h.0, All-map P Q xs f h.1)

pub length-map {ℓ κ} :
    {A : Type ℓ} {B : Type κ} (f : A → B) (xs : List A) → length (map f xs) ≡ length xs
length-map f [] = refl
length-map f (x ∷ xs) = ap suc (length-map f xs)

pub drop_nil {ℓ} : {A : Type ℓ} (n : ℕ) → drop {A = A} n [] ≡ []
drop_nil zero = refl
drop_nil (suc n) = refl

pub drop-add {ℓ} : {A : Type ℓ} (m n : ℕ) (xs : List A) → drop (m + n) xs ≡ drop n (drop m xs)
drop-add zero n xs = ap (λ k. drop k xs) (omega arith)
drop-add (suc m) n [] = drop_nil (suc m + n) ∙ sym (drop_nil n)
drop-add (suc m) n (x ∷ xs) =
    let shift : suc m + n ≡ suc (m + n) = omega arith in
    ap (λ k. drop k (x ∷ xs)) shift ∙ drop-add m n xs

abbrev pub concat {ℓ} : {A : Type ℓ} → List (List A) → List A
concat [] = []
concat (xs ∷ xss) = xs ++ concat xss

-- A list that is at least as long as the front of an equal one begins with that front.
pub append-split {ℓ} :
    {A : Type ℓ} (xs us ys vs : List A)
    → length ys ≤ length xs
    → xs ++ us ≡ ys ++ vs
    → (xs ≡ ys ++ drop (length ys) xs) × (drop (length ys) xs ++ us ≡ vs)
append-split xs us [] vs l e = (refl, e)
append-split [] us (y ∷ ys) vs l e = absurd (omega arith)
append-split (x ∷ xs) us (y ∷ ys) vs l e =
    let rest = append-split xs us ys vs (omega arith) (ap (drop 1) e) in
    let head : x ≡ y = ground arith in (rw head (ap (◌∷◌ y) rest.0), rest.1)
