-- ===== src/Prelude/Folds.antt =====
-- Left folds over a monoid, and the list operations `flatten` and `zip` that the folds run over.
use mathlib.Core.Path.{◌≡◌, refl, sym, ap, ap₂, ◌∙◌}
use mathlib.Core.List.{List, [], ◌∷◌, ◌++◌, map, foldl, flatten, zip, map-append}
use mathlib.Core.List.{foldl-append}

pub record IsMonoid {ℓ} {A : Type ℓ} (op : A → A → A) (e : A) : Type ℓ where
  pub assoc : (a b c : A) → op (op a b) c ≡ op a (op b c)
  pub left_unit : (a : A) → op e a ≡ a
  pub right_unit : (a : A) → op a e ≡ a

module _ {ℓ} {A : Type ℓ} (op : A → A → A) (e : A) (laws : IsMonoid op e) where
  open laws use {assoc, left_unit, right_unit}

  pub foldl_from : (a : A) (xs : List A) → foldl op a xs ≡ op a (foldl op e xs)
  foldl_from a [] = sym (right_unit a)
  foldl_from a (x ∷ xs) =
      foldl_from (op a x) xs
      ∙ assoc a x (foldl op e xs)
      ∙ ap (op a) (sym (ap (λ (t : A). foldl op t xs) (left_unit x) ∙ foldl_from x xs))

  -- The fold of a concatenation is the fold of the folds.
  pub foldl-flatten :
      (xss : List (List A)) → foldl op e (flatten xss) ≡ foldl op e (map (foldl op e) xss)
  unfolding flatten
  foldl-flatten [] = refl
  foldl-flatten (xs ∷ xss) =
      foldl-append op e xs (flatten xss)
      ∙ foldl_from (foldl op e xs) (flatten xss)
      ∙ ap₂ op (sym (left_unit (foldl op e xs))) (foldl-flatten xss)
      ∙ sym (foldl_from (op e (foldl op e xs)) (map (foldl op e) xss))

module _ {ℓ κ} {A : Type ℓ} {B : Type κ} where
  pub map-flatten :
      (f : A → B) (xss : List (List A)) → map f (flatten xss) ≡ flatten (map (map f) xss)
  unfolding flatten
  map-flatten f [] = refl
  map-flatten f (xs ∷ xss) =
      map-append f xs (flatten xss) ∙ ap (λ (t : List B). map f xs ++ t) (map-flatten f xss)

-- What is zipped with its own image is mapped once.
pub map-zip_self {ℓ κ υ} :
    {A : Type ℓ} {B : Type κ} {C : Type υ} (g : A × B → C) (f : A → B) (xs : List A)
    → map g (zip xs (map f xs)) ≡ map (λ x. g (x, f x)) xs
unfolding zip
map-zip_self g f [] = refl
map-zip_self g f (x ∷ xs) = ap (◌∷◌ (g (x, f x))) (map-zip_self g f xs)

pub map-map {ℓ κ υ} :
    {A : Type ℓ} {B : Type κ} {C : Type υ} (g : B → C) (f : A → B) (xs : List A)
    → map g (map f xs) ≡ map (λ x. g (f x)) xs
map-map g f [] = refl
map-map g f (x ∷ xs) = ap (◌∷◌ (g (f x))) (map-map g f xs)
