-- ===== src/Floats.antt =====
-- Rust's `f64` and `f32`, and `float` of CUDA: the types and the operations that the program uses,
-- as a parameter of everything computed with them. Nothing is assumed of the operations but what the
-- records `IsBitExact` and `IsExact` say where a theorem takes one of them.
pub mod Sums
pub mod Singles
pub mod MaxPlus
pub mod FixedPoint
use distributed_softmax.Prelude.{ℕ, ◌+◌, ◌^◌, ◌<◌, ◌≡◌, Bool, true, IsMonoid}

pub record Floats : Type 1 where
  pub F64 : Type 0
  pub F32 : Type 0
  pub neg_infinity : F64  -- f64::NEG_INFINITY
  pub zero64 : F64  -- 0.0, where `sum()` starts
  pub one64 : F64  -- 1.0
  pub add : F64 → F64 → F64
  pub sub : F64 → F64 → F64
  pub mul : F64 → F64 → F64
  pub div : F64 → F64 → F64
  pub max : F64 → F64 → F64  -- f64::max
  pub exp : F64 → F64
  pub widen : F32 → F64  -- `as f64`
  pub narrow : F64 → F32  -- `as f32`
  pub to_bits64 : F64 → ℕ
  pub from_bits64 : ℕ → F64
  pub to_bits32 : F32 → ℕ
  pub from_bits32 : ℕ → F32
  pub neg_infinity32 : F32  -- f32::NEG_INFINITY
  pub zero32 : F32
  pub one32 : F32
  pub pad32 : F32  -- the kernels' -1e38f
  pub add32 : F32 → F32 → F32
  pub sub32 : F32 → F32 → F32
  pub mul32 : F32 → F32 → F32
  pub div32 : F32 → F32 → F32
  pub max32 : F32 → F32 → F32  -- f32::max, fmaxf
  pub exp32 : F32 → F32  -- expf

-- `to_bits` and `from_bits` lose nothing: both are reinterpretations of the same bits.
pub record IsBitExact (F : Floats) : Type 0 where
  pub to_bits64_lt : (x : F.F64) → F.to_bits64 x < 2 ^ 64
  pub to_bits32_lt : (x : F.F32) → F.to_bits32 x < 2 ^ 32
  pub from_bits64-to_bits64 : (x : F.F64) → F.from_bits64 (F.to_bits64 x) ≡ x
  pub from_bits32-to_bits32 : (x : F.F32) → F.from_bits32 (F.to_bits32 x) ≡ x

-- Arithmetic without rounding, overflow or NaN: the laws of the real numbers, with `neg_infinity`
-- below them all. Under these laws a formula of the program is compared with the formula that it
-- stands for; what rounding adds is not modelled.
pub record IsExact (F : Floats) : Type 0 where
  pub is_finite : F.F64 → Bool
  pub is_positive : F.F64 → Bool
  pub add_monoid : IsMonoid F.add F.zero64
  pub max_monoid : IsMonoid F.max F.neg_infinity
  pub finite-max :
      (x y : F.F64) → is_finite x ≡ true → is_finite y ≡ true → is_finite (F.max x y) ≡ true
  pub add_mul : (a b c : F.F64) → F.mul (F.add a b) c ≡ F.add (F.mul a c) (F.mul b c)
  pub zero_mul : (a : F.F64) → F.mul F.zero64 a ≡ F.zero64
  pub add_div : (a b c : F.F64) → F.div (F.add a b) c ≡ F.add (F.div a c) (F.div b c)
  pub zero_div : (a : F.F64) → F.div F.zero64 a ≡ F.zero64
  -- exp (x - m) * exp (m - n) = exp (x - n)
  pub exp_shift :
      (x m n : F.F64)
      → is_finite x ≡ true
      → is_finite m ≡ true
      → is_finite n ≡ true
      → F.mul (F.exp (F.sub x m)) (F.exp (F.sub m n)) ≡ F.exp (F.sub x n)
  pub widen-narrow : (x : F.F64) → F.widen (F.narrow x) ≡ x
  pub exp-positive :
      (x m : F.F64)
      → is_finite x ≡ true
      → is_finite m ≡ true
      → is_positive (F.exp (F.sub x m)) ≡ true
  pub add-positive :
      (x y : F.F64) → is_positive x ≡ true → is_positive y ≡ true → is_positive (F.add x y) ≡ true
  pub div_self : (x : F.F64) → is_positive x ≡ true → F.div x x ≡ F.one64
  pub add_comm : (x y : F.F64) → F.add x y ≡ F.add y x
  pub max_comm : (x y : F.F64) → F.max x y ≡ F.max y x
  pub max_self : (x : F.F64) → F.max x x ≡ x
  pub mul_inverse : (x y : F.F64) → F.mul x (F.div F.one64 y) ≡ F.div x y
  -- An f32 is an f64, and is computed with as such.
  pub narrow-widen : (x : F.F32) → F.narrow (F.widen x) ≡ x
  pub widen-neg_infinity32 : F.widen F.neg_infinity32 ≡ F.neg_infinity
  pub widen-zero32 : F.widen F.zero32 ≡ F.zero64
  pub widen-one32 : F.widen F.one32 ≡ F.one64
  pub widen-add32 : (x y : F.F32) → F.widen (F.add32 x y) ≡ F.add (F.widen x) (F.widen y)
  pub widen-sub32 : (x y : F.F32) → F.widen (F.sub32 x y) ≡ F.sub (F.widen x) (F.widen y)
  pub widen-mul32 : (x y : F.F32) → F.widen (F.mul32 x y) ≡ F.mul (F.widen x) (F.widen y)
  pub widen-div32 : (x y : F.F32) → F.widen (F.div32 x y) ≡ F.div (F.widen x) (F.widen y)
  pub widen-max32 : (x y : F.F32) → F.widen (F.max32 x y) ≡ F.max (F.widen x) (F.widen y)
  pub widen-exp32 : (x : F.F32) → F.widen (F.exp32 x) ≡ F.exp (F.widen x)
