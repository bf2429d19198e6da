-- ===== src/Base/Reorder.antt =====
-- Lists with the same elements in another order. Unlike the library's permutations these are not
-- truncated, so that a list beside one of them can be put in the same order.
use mathlib.Core.List.{List, [], ◌∷◌}

module _ {ℓ} {A : Type ℓ} where
  pub data Reordered : List A → List A → Type ℓ where
    nil : Reordered [] []
    cons : (a : A) {xs ys : List A} → Reordered xs ys → Reordered (a ∷ xs) (a ∷ ys)
    swap : (a b : A) (xs : List A) → Reordered (a ∷ b ∷ xs) (b ∷ a ∷ xs)
    trans : {xs ys zs : List A} → Reordered xs ys → Reordered ys zs → Reordered xs zs

  pub Reordered-refl : (xs : List A) → Reordered xs xs
  Reordered-refl [] = nil
  Reordered-refl (x ∷ xs) = cons x (Reordered-refl xs)
