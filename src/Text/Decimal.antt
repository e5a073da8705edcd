-- ===== src/Text/Decimal.antt =====
-- `to_decimal` and `parse_uint`: shape of the printed text, and the round trip.
use mathlib.Core.Option.{some-injective}
use distributed_softmax.Prelude.{
  ℕ, zero, suc, ◌+◌, ◌-◌, ◌*◌, ◌/◌, ◌%◌, ◌≤◌, ◌<◌, ◌≡◌, inl, inr, Bool-cases, some, [], ◌∷◌, ◌++◌,
  arith, ltb, All, All-append, length-append, IsNonempty, tests, ap, ◌∙◌, sym,
}
use distributed_softmax.Text.{Bytes, IsDigit, to_decimal_loop, to_decimal, parse_digits, parse_uint}

to_decimal_loop-IsDigit : (f n : ℕ) → All IsDigit (to_decimal_loop f n)
unfolding to_decimal_loop
to_decimal_loop-IsDigit zero n = tt
to_decimal_loop-IsDigit (suc f) n = ground (
  arith,
  to_decimal_loop-IsDigit f (n / 10),
  All-append IsDigit (to_decimal_loop f (n / 10)) ((b'0' + n % 10) ∷ []),
)

pub to_decimal-IsDigit : (n : ℕ) → All IsDigit (to_decimal n)
unfolding to_decimal
to_decimal-IsDigit n = to_decimal_loop-IsDigit (suc n) n

to_decimal_loop-IsNonempty : (f n : ℕ) → IsNonempty (to_decimal_loop (suc f) n)
unfolding to_decimal_loop
to_decimal_loop-IsNonempty f n =
    ground (arith, length-append (to_decimal_loop f (n / 10)) ((b'0' + n % 10) ∷ []))

parse_digits-append :
    (max acc : ℕ) (s t : Bytes) (v : ℕ)
    → parse_digits max acc s ≡ some v
    → parse_digits max acc (s ++ t) ≡ parse_digits max v t
unfolding parse_digits
parse_digits-append max acc [] t v h = ground arith
parse_digits-append max acc (c ∷ s) t v h =
    ground (arith, parse_digits-append max (acc * 10 + (c - b'0')) s t v)

parse_last_digit :
    (max v d : ℕ)
    → d < 10
    → v * 10 + d ≤ max
    → parse_digits max v ((b'0' + d) ∷ []) ≡ some (v * 10 + d)
unfolding parse_digits
parse_last_digit max v d hd h = ground arith

parse_digits-to_decimal_loop :
    (max f n : ℕ) → n < f → n ≤ max → parse_digits max 0 (to_decimal_loop f n) ≡ some n
unfolding to_decimal_loop
parse_digits-to_decimal_loop max zero n lt h = absurd (omega arith)
parse_digits-to_decimal_loop max (suc f) n lt h = elim (Bool-cases (ltb n 10)) [
  | inl small ↦
      rw small (parse_last_digit max 0 n (omega tests) (omega arith) ∙ ap some (omega arith))
  | inr large ↦
      let below : n / 10 < f = ground arith in
      let front = parse_digits-to_decimal_loop max f (n / 10) below (omega arith) in
      rw large (
        parse_digits-append max 0 (to_decimal_loop f (n / 10)) ((b'0' + n % 10) ∷ []) (n / 10) front
        ∙ parse_last_digit max (n / 10) (n % 10) (omega arith) (omega arith)
        ∙ ap some (omega arith))
]

-- A text of digits is parsed from its first character on.
parse_uint_digits :
    (max : ℕ) (s : Bytes) → All IsDigit s → IsNonempty s → parse_uint max s ≡ parse_digits max 0 s
unfolding parse_uint
parse_uint_digits max [] d h = elim h [ ]
parse_uint_digits max (c ∷ s) (d, _) h = ground arith

-- `parse` reads back the number that `to_string` printed, if the type holds it.
pub parse_uint-to_decimal : (max n : ℕ) → n ≤ max → parse_uint max (to_decimal n) ≡ some n
unfolding to_decimal
parse_uint-to_decimal max n h =
    parse_uint_digits max (to_decimal n) (to_decimal-IsDigit n) (to_decimal_loop-IsNonempty n n)
    ∙ parse_digits-to_decimal_loop max (suc n) n (omega arith) h

-- So the printed texts of different numbers differ.
pub to_decimal_injective : (m n : ℕ) → to_decimal m ≡ to_decimal n → m ≡ n
to_decimal_injective m n e = some-injective m n (
    sym (parse_uint-to_decimal (m + n) m (omega arith))
    ∙ ap (parse_uint (m + n)) e
    ∙ parse_uint-to_decimal (m + n) n (omega arith))
