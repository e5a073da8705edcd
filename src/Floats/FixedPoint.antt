-- ===== src/Floats/FixedPoint.antt =====
-- Numbers whose bits lose nothing: unsigned fixed-point numbers with eight binary digits after the
-- point, in 64 and in 32 bits, with arithmetic that wraps.
use native.Mathlib.Bridge.{le_prop}
use mathlib.Core.HLevel.{Σ_prop_path}
use native.Mathlib.Nat.{mod-eq_of_lt}
use distributed_softmax.Prelude.{
  ℕ, ◌+◌, ◌-◌, ◌*◌, ◌/◌, ◌%◌, ◌^◌, ◌<◌, ◌≡◌, arith, ltb, if◌then◌else◌,
}
use distributed_softmax.Floats.{Floats, IsBitExact}

abbrev pub Word : ℕ → Type 0
Word size = (n : ℕ) × (n < size)

pub word64_lt : (n : ℕ) → n % 2 ^ 64 < 2 ^ 64
word64_lt n = omega arith

pub word32_lt : (n : ℕ) → n % 2 ^ 32 < 2 ^ 32
word32_lt n = omega arith

abbrev pub word64 : ℕ → Word (2 ^ 64)
word64 n = (n % 2 ^ 64, word64_lt n)

abbrev pub word32 : ℕ → Word (2 ^ 32)
word32 n = (n % 2 ^ 32, word32_lt n)

abbrev pub fixed_point : Floats
fixed_point = record {
  F64 = Word (2 ^ 64);
  F32 = Word (2 ^ 32);
  neg_infinity = word64 0;
  zero64 = word64 0;
  one64 = word64 256;
  add = λ a b. word64 (a.0 + b.0);
  sub = λ a b. word64 (a.0 + 2 ^ 64 - b.0);
  mul = λ a b. word64 (a.0 * b.0 / 256);
  div = λ a b. word64 (a.0 * 256 / b.0);
  max = λ a b. if ltb a.0 b.0 then b else a;
  exp = λ a. word64 (256 + a.0);
  widen = λ a. word64 a.0;
  narrow = λ a. word32 a.0;
  to_bits64 = λ a. a.0;
  from_bits64 = word64;
  to_bits32 = λ a. a.0;
  from_bits32 = word32;
  neg_infinity32 = word32 0;
  zero32 = word32 0;
  one32 = word32 256;
  pad32 = word32 0;
  add32 = λ a b. word32 (a.0 + b.0);
  sub32 = λ a b. word32 (a.0 + 2 ^ 32 - b.0);
  mul32 = λ a b. word32 (a.0 * b.0 / 256);
  div32 = λ a b. word32 (a.0 * 256 / b.0);
  max32 = λ a b. if ltb a.0 b.0 then b else a;
  exp32 = λ a. word32 (256 + a.0);
}

word64_self : (x : Word (2 ^ 64)) → word64 x.0 ≡ x
word64_self x = Σ_prop_path (λ n. le_prop) (mod-eq_of_lt x.1)

word32_self : (x : Word (2 ^ 32)) → word32 x.0 ≡ x
word32_self x = Σ_prop_path (λ n. le_prop) (mod-eq_of_lt x.1)

pub fixed_point-IsBitExact : IsBitExact fixed_point
fixed_point-IsBitExact = record {
  to_bits64_lt = λ x. x.1;
  to_bits32_lt = λ x. x.1;
  from_bits64-to_bits64 = word64_self;
  from_bits32-to_bits32 = word32_self;
}
