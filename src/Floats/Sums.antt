-- ===== src/Floats/Sums.antt =====
-- Sums and maxima over lists of floats, as `iter().sum()` and `fold(NEG_INFINITY, f64::max)` make
-- them, and their laws in exact arithmetic.
use distributed_softmax.Prelude.{
  ◌≡◌, refl, sym, ap, ◌∙◌, true, List, [], ◌∷◌, map, foldl, flatten, All, IsNonempty, foldl_from,
  foldl-flatten,
}
use distributed_softmax.Floats.{Floats, IsExact}

module _ (F : Floats) where
  open F use {F64, add, sub, mul, div, max, exp, zero64, neg_infinity}

  -- `iter().sum()`
  unfoldable pub sum : List F64 → F64
  sum = foldl add zero64

  -- `iter().fold(f64::NEG_INFINITY, f64::max)`
  unfoldable pub maximum : List F64 → F64
  maximum = foldl max neg_infinity

  pub sum-nil : sum [] ≡ zero64
  unfolding sum
  sum-nil = refl

  module _ (E : IsExact F) where
    open E use {
      is_finite, is_positive, add_monoid, max_monoid, finite-max, add_mul, zero_mul, add_div,
      zero_div, add-positive,
    }

    abbrev pub IsFinite : F64 → Type 0
    IsFinite x = is_finite x ≡ true

    pub sum-cons : (x : F64) (xs : List F64) → sum (x ∷ xs) ≡ add x (sum xs)
    unfolding sum
    sum-cons x xs =
        ap (λ (t : F64). foldl add t xs) (add_monoid.left_unit x)
        ∙ foldl_from add zero64 add_monoid x xs

    pub sum-flatten : (xss : List (List F64)) → sum (flatten xss) ≡ sum (map sum xss)
    unfolding sum
    sum-flatten = foldl-flatten add zero64 add_monoid

    pub maximum-flatten :
        (xss : List (List F64)) → maximum (flatten xss) ≡ maximum (map maximum xss)
    unfolding maximum
    maximum-flatten = foldl-flatten max neg_infinity max_monoid

    pub mul-sum : (c : F64) (xs : List F64) → mul (sum xs) c ≡ sum (map (λ x. mul x c) xs)
    mul-sum c [] = ap (λ (t : F64). mul t c) sum-nil ∙ zero_mul c ∙ sym sum-nil
    mul-sum c (x ∷ xs) =
        ap (λ (t : F64). mul t c) (sum-cons x xs)
        ∙ add_mul x (sum xs) c
        ∙ ap (add (mul x c)) (mul-sum c xs)
        ∙ sym (sum-cons (mul x c) (map (λ x. mul x c) xs))

    pub div-sum : (c : F64) (xs : List F64) → div (sum xs) c ≡ sum (map (λ x. div x c) xs)
    div-sum c [] = ap (λ (t : F64). div t c) sum-nil ∙ zero_div c ∙ sym sum-nil
    div-sum c (x ∷ xs) =
        ap (λ (t : F64). div t c) (sum-cons x xs)
        ∙ add_div x (sum xs) c
        ∙ ap (add (div x c)) (div-sum c xs)
        ∙ sym (sum-cons (div x c) (map (λ x. div x c) xs))

    foldl-max-IsFinite :
        (a : F64) (xs : List F64) → IsFinite a → All IsFinite xs → IsFinite (foldl max a xs)
    foldl-max-IsFinite a [] h hs = h
    foldl-max-IsFinite a (x ∷ xs) h (p, ps) =
        foldl-max-IsFinite (max a x) xs (finite-max a x h p) ps

    pub maximum-IsFinite : (xs : List F64) → IsNonempty xs → All IsFinite xs → IsFinite (maximum xs)
    unfolding maximum
    maximum-IsFinite [] h hs = elim h [ ]
    maximum-IsFinite (x ∷ xs) h (p, ps) =
        foldl-max-IsFinite (max neg_infinity x) xs (ap is_finite (max_monoid.left_unit x) ∙ p) ps

    foldl-add-positive :
        (a : F64) (xs : List F64)
        → is_positive a ≡ true
        → All (λ x. is_positive x ≡ true) xs
        → is_positive (foldl add a xs) ≡ true
    foldl-add-positive a [] h hs = h
    foldl-add-positive a (x ∷ xs) h (p, ps) =
        foldl-add-positive (add a x) xs (add-positive a x h p) ps

    pub sum-positive :
        (xs : List F64)
        → IsNonempty xs
        → All (λ x. is_positive x ≡ true) xs
        → is_positive (sum xs) ≡ true
    unfolding sum
    sum-positive [] h hs = elim h [ ]
    sum-positive (x ∷ xs) h (p, ps) =
        foldl-add-positive (add zero64 x) xs (ap is_positive (add_monoid.left_unit x) ∙ p) ps
