-- ===== src/Floats/Singles.antt =====
-- The f32 operations in exact arithmetic: those of f64 on fewer numbers.
use distributed_softmax.Prelude.{◌≡◌, refl, sym, ap, ◌∙◌, List, [], ◌∷◌, map, foldl, IsMonoid}
use distributed_softmax.Floats.{Floats, IsExact}
use distributed_softmax.Floats.Sums.{sum, maximum}

module _ (F : Floats) where
  open F use {F32, add32, max32, zero32, neg_infinity32}

  -- `iter().sum()`
  unfoldable pub sum32 : List F32 → F32
  sum32 = foldl add32 zero32

  -- `iter().cloned().fold(f32::NEG_INFINITY, f32::max)`
  unfoldable pub maximum32 : List F32 → F32
  maximum32 = foldl max32 neg_infinity32

  module _ (E : IsExact F) where
    open F use {F64, widen, narrow, add, max}
    open E use {
      add_monoid, max_monoid, add_comm, max_comm, max_self, narrow-widen, widen-add32, widen-max32,
      widen-zero32, widen-neg_infinity32,
    }

    pub widen_injective : (x y : F32) → widen x ≡ widen y → x ≡ y
    widen_injective x y h = sym (narrow-widen x) ∙ ap narrow h ∙ narrow-widen y

    module _ (op : F64 → F64 → F64) (op32 : F32 → F32 → F32) (e : F64) (e32 : F32)
        (widen-op : (x y : F32) → widen (op32 x y) ≡ op (widen x) (widen y))
        (widen-e : widen e32 ≡ e) where
      single-IsMonoid : IsMonoid op e → IsMonoid op32 e32
      single-IsMonoid M = record {
        assoc = λ a b c. widen_injective _ _ (
            rw (widen-op (op32 a b) c, widen-op a b, widen-op a (op32 b c), widen-op b c)
              (M.assoc (widen a) (widen b) (widen c)));
        left_unit = λ a. widen_injective _ _ (rw (widen-op e32 a, widen-e) (M.left_unit (widen a)));
        right_unit =
            λ a. widen_injective _ _ (rw (widen-op a e32, widen-e) (M.right_unit (widen a)));
      }

      single_comm : ((x y : F64) → op x y ≡ op y x) → (x y : F32) → op32 x y ≡ op32 y x
      single_comm comm x y =
          widen_injective _ _ (rw (widen-op x y, widen-op y x) (comm (widen x) (widen y)))

      widen-foldl_from :
          (a : F32) (xs : List F32) → widen (foldl op32 a xs) ≡ foldl op (widen a) (map widen xs)
      widen-foldl_from a [] = refl
      widen-foldl_from a (x ∷ xs) =
          widen-foldl_from (op32 a x) xs
          ∙ ap (λ (t : F64). foldl op t (map widen xs)) (widen-op a x)

      widen-foldl : (xs : List F32) → widen (foldl op32 e32 xs) ≡ foldl op e (map widen xs)
      widen-foldl xs = widen-foldl_from e32 xs ∙ ap (λ (t : F64). foldl op t (map widen xs)) widen-e

    pub add32-IsMonoid : IsMonoid add32 zero32
    add32-IsMonoid = single-IsMonoid add add32 F.zero64 zero32 widen-add32 widen-zero32 add_monoid

    pub max32-IsMonoid : IsMonoid max32 neg_infinity32
    max32-IsMonoid =
        single-IsMonoid max max32 F.neg_infinity neg_infinity32 widen-max32 widen-neg_infinity32
          max_monoid

    pub add32_comm : (x y : F32) → add32 x y ≡ add32 y x
    add32_comm = single_comm add add32 F.zero64 zero32 widen-add32 widen-zero32 add_comm

    pub max32_comm : (x y : F32) → max32 x y ≡ max32 y x
    max32_comm =
        single_comm max max32 F.neg_infinity neg_infinity32 widen-max32 widen-neg_infinity32
          max_comm

    pub max32_self : (x : F32) → max32 x x ≡ x
    max32_self x = widen_injective _ _ (widen-max32 x x ∙ max_self (widen x))

    pub widen-sum32 : (xs : List F32) → widen (sum32 xs) ≡ sum F (map widen xs)
    unfolding sum32 sum
    widen-sum32 = widen-foldl add add32 F.zero64 zero32 widen-add32 widen-zero32

    pub widen-maximum32 : (xs : List F32) → widen (maximum32 xs) ≡ maximum F (map widen xs)
    unfolding maximum32 maximum
    widen-maximum32 =
        widen-foldl max max32 F.neg_infinity neg_infinity32 widen-max32 widen-neg_infinity32
