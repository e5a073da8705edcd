-- ===== src/Floats/MaxPlus.antt =====
-- Numbers that meet the laws of exact arithmetic: integers with the maximum for a sum and the sum for
-- a product, and `none` for both zero and minus infinity. They are logarithms, so `exp` is the
-- identity.
use distributed_softmax.Prelude.{
  ℕ, ◌+◌, ◌-◌, ◌*◌, ◌/◌, ◌%◌, ◌==◌, ◌≡◌, refl, ap, Bool, true, false, Option, none, some, arith,
  if◌then◌else◌, IsMonoid,
}
use distributed_softmax.Prelude.Int.{ℤ, pos, negsuc, ◌+ℤ◌, ◌-ℤ◌, ltb_ℤ, int_laws, eq_of_parts}
use distributed_softmax.Floats.{Floats, IsExact}

abbrev pub Level : Type 0
Level = Option ℤ

abbrev larger_ℤ : ℤ → ℤ → ℤ
larger_ℤ a b = if ltb_ℤ a b then b else a

abbrev larger : Level → Level → Level
larger none b = b
larger (some a) none = some a
larger (some a) (some b) = some (larger_ℤ a b)

abbrev on_both : (ℤ → ℤ → ℤ) → Level → Level → Level
on_both f (some a) (some b) = some (f a b)
on_both f (some a) none = none
on_both f none b = none

abbrev is_level : Level → Bool
is_level none = false
is_level (some _) = true

-- A level as bits: zero for `none`, odd numbers from 0 up, even ones from -1 down.
abbrev level_bits : Level → ℕ
level_bits none = 0
level_bits (some (pos n)) = 2 * n + 1
level_bits (some (negsuc n)) = 2 * n + 2

abbrev bits_level : ℕ → Level
bits_level n =
    if n == 0 then none else if n % 2 == 1 then some (pos (n / 2)) else some (negsuc (n / 2 - 1))

abbrev pub max_plus : Floats
max_plus = record {
  F64 = Level;
  F32 = Level;
  neg_infinity = none;
  zero64 = none;
  one64 = some (pos 0);
  add = larger;
  sub = on_both ◌-ℤ◌;
  mul = on_both ◌+ℤ◌;
  div = on_both ◌-ℤ◌;
  max = larger;
  exp = λ x. x;
  widen = λ x. x;
  narrow = λ x. x;
  to_bits64 = level_bits;
  from_bits64 = bits_level;
  to_bits32 = level_bits;
  from_bits32 = bits_level;
  neg_infinity32 = none;
  zero32 = none;
  one32 = some (pos 0);
  pad32 = some (negsuc 99);
  add32 = larger;
  sub32 = on_both ◌-ℤ◌;
  mul32 = on_both ◌+ℤ◌;
  div32 = on_both ◌-ℤ◌;
  max32 = larger;
  exp32 = λ x. x;
}

larger_ℤ_assoc : (a b c : ℤ) → larger_ℤ (larger_ℤ a b) c ≡ larger_ℤ a (larger_ℤ b c)
larger_ℤ_assoc a b c = ground arith

larger_assoc : (a b c : Level) → larger (larger a b) c ≡ larger a (larger b c)
larger_assoc none b c = refl
larger_assoc (some a) none c = refl
larger_assoc (some a) (some b) none = refl
larger_assoc (some a) (some b) (some c) = ap some (larger_ℤ_assoc a b c)

larger-none : (a : Level) → larger a none ≡ a
larger-none none = refl
larger-none (some a) = refl

larger-IsMonoid : IsMonoid larger none
larger-IsMonoid = record { assoc = larger_assoc; left_unit = λ a. refl; right_unit = larger-none }

is_level-larger :
    (a b : Level) → is_level a ≡ true → is_level b ≡ true → is_level (larger a b) ≡ true
is_level-larger none b h k = k
is_level-larger (some a) none h k = refl
is_level-larger (some a) (some b) h k = refl

larger_ℤ-add : (a b c : ℤ) → larger_ℤ a b +ℤ c ≡ larger_ℤ (a +ℤ c) (b +ℤ c)
unfolding ◌+ℤ◌
larger_ℤ-add a b c = ground arith

larger_ℤ-sub : (a b c : ℤ) → larger_ℤ a b -ℤ c ≡ larger_ℤ (a -ℤ c) (b -ℤ c)
unfolding ◌-ℤ◌
larger_ℤ-sub a b c = ground arith

on_both-larger :
    (f : ℤ → ℤ → ℤ)
    → ((a b c : ℤ) → f (larger_ℤ a b) c ≡ larger_ℤ (f a c) (f b c))
    → (a b c : Level) → on_both f (larger a b) c ≡ larger (on_both f a c) (on_both f b c)
on_both-larger f h none b c = refl
on_both-larger f h (some a) none none = refl
on_both-larger f h (some a) none (some c) = refl
on_both-larger f h (some a) (some b) none = refl
on_both-larger f h (some a) (some b) (some c) = ap some (h a b c)

shift : (x m n : ℤ) → (x -ℤ m) +ℤ (m -ℤ n) ≡ x -ℤ n
shift x m n = omega int_laws

sub_self : (x : ℤ) → x -ℤ x ≡ pos 0
sub_self x = omega int_laws

exp_shift :
    (x m n : Level)
    → is_level x ≡ true
    → is_level m ≡ true
    → is_level n ≡ true
    → on_both ◌+ℤ◌ (on_both ◌-ℤ◌ x m) (on_both ◌-ℤ◌ m n) ≡ on_both ◌-ℤ◌ x n
exp_shift none m n h k l = refl
exp_shift (some x) none n h k l = cc
exp_shift (some x) (some m) none h k l = refl
exp_shift (some x) (some m) (some n) h k l = ap some (shift x m n)

is_level-sub :
    (x m : Level) → is_level x ≡ true → is_level m ≡ true → is_level (on_both ◌-ℤ◌ x m) ≡ true
is_level-sub none m h k = h
is_level-sub (some x) none h k = k
is_level-sub (some x) (some m) h k = refl

div_self : (x : Level) → is_level x ≡ true → on_both ◌-ℤ◌ x x ≡ some (pos 0)
div_self none h = cc
div_self (some x) h = ap some (sub_self x)

larger_ℤ_comm : (a b : ℤ) → larger_ℤ a b ≡ larger_ℤ b a
larger_ℤ_comm a b = ground (arith, eq_of_parts a b)

larger_comm : (a b : Level) → larger a b ≡ larger b a
larger_comm none none = refl
larger_comm none (some b) = refl
larger_comm (some a) none = refl
larger_comm (some a) (some b) = ap some (larger_ℤ_comm a b)

larger_self : (a : Level) → larger a a ≡ a
larger_self none = refl
larger_self (some a) = ap some (ground arith)

add_inverse : (a b : ℤ) → a +ℤ (pos 0 -ℤ b) ≡ a -ℤ b
add_inverse a b = omega int_laws

mul_inverse : (a b : Level) → on_both ◌+ℤ◌ a (on_both ◌-ℤ◌ (some (pos 0)) b) ≡ on_both ◌-ℤ◌ a b
mul_inverse none none = refl
mul_inverse none (some b) = refl
mul_inverse (some a) none = refl
mul_inverse (some a) (some b) = ap some (add_inverse a b)

pub max_plus-IsExact : IsExact max_plus
max_plus-IsExact = record {
  is_finite = is_level;
  is_positive = is_level;
  add_monoid = larger-IsMonoid;
  max_monoid = larger-IsMonoid;
  finite-max = is_level-larger;
  add_mul = on_both-larger ◌+ℤ◌ larger_ℤ-add;
  zero_mul = λ a. refl;
  add_div = on_both-larger ◌-ℤ◌ larger_ℤ-sub;
  zero_div = λ a. refl;
  exp_shift = exp_shift;
  widen-narrow = λ x. refl;
  exp-positive = is_level-sub;
  add-positive = is_level-larger;
  div_self = div_self;
  add_comm = larger_comm;
  max_comm = larger_comm;
  max_self = larger_self;
  mul_inverse = mul_inverse;
  narrow-widen = λ x. refl;
  widen-neg_infinity32 = refl;
  widen-zero32 = refl;
  widen-one32 = refl;
  widen-add32 = λ x y. refl;
  widen-sub32 = λ x y. refl;
  widen-mul32 = λ x y. refl;
  widen-div32 = λ x y. refl;
  widen-max32 = λ x y. refl;
  widen-exp32 = λ x. refl;
}

pub finite_level : (x : ℤ) → max_plus-IsExact.is_finite (some x) ≡ true
unfolding max_plus-IsExact
finite_level x = refl
