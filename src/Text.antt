-- ===== src/Text.antt =====
-- Rust text as its bytes: literals, the decimal printing of `to_string` and `format!`, and the
-- parsing of `str::parse` at the unsigned and signed widths that the gateway and the worker use.
pub mod Decimal
pub mod Separator
pub mod Utf8
use Prim.Native.Char.{code}
use Prim.Native.String.{String}
use distributed_softmax.Prelude.{
  ℕ, zero, suc, ◌+◌, ◌-◌, ◌*◌, ◌/◌, ◌%◌, ◌^◌, ◌≤◌, ◌<◌, Bool, true, false, ◌&&◌, Option, none, some,
  List, [], ◌∷◌, ◌++◌, ltb, leb, ◌==◌, if◌then◌else◌,
}

abbrev pub Bytes : Type 0
Bytes = List ℕ

-- The bytes of an ASCII literal.
abbrev pub bytes : String → Bytes
bytes String.[] = []
bytes (String.◌∷◌ c s) = code c ∷ bytes s

-- `s == t` on texts.
unfoldable pub beq : Bytes → Bytes → Bool
beq [] [] = true
beq [] (_ ∷ _) = false
beq (_ ∷ _) [] = false
beq (a ∷ s) (b ∷ t) = a == b && beq s t

-- `s.strip_prefix(p)`
unfoldable pub strip_prefix : (p s : Bytes) → Option Bytes
strip_prefix [] s = some s
strip_prefix (a ∷ p) [] = none
strip_prefix (a ∷ p) (b ∷ s) = let rest = strip_prefix p s in if a == b then rest else none

abbrev pub IsDigit : ℕ → Type 0
IsDigit c = (b'0' ≤ c) × (c ≤ b'9')

-- One round for each digit; `n + 1` rounds are enough (`Text.Decimal.parse_digits-to_decimal`).
unfoldable pub to_decimal_loop : ℕ → ℕ → Bytes
to_decimal_loop zero n = []
to_decimal_loop (suc f) n =
    let front = to_decimal_loop f (n / 10) in
    if ltb n 10 then (b'0' + n) ∷ [] else front ++ ((b'0' + n % 10) ∷ [])

-- `n.to_string()`
unfoldable pub to_decimal : ℕ → Bytes
to_decimal n = to_decimal_loop (suc n) n

abbrev pub is_digit : ℕ → Bool
is_digit c = leb b'0' c && leb c b'9'

-- The digits of `str::parse`, with its check of every product and sum against the type's maximum.
unfoldable pub parse_digits : (max acc : ℕ) → Bytes → Option ℕ
parse_digits max acc [] = some acc
parse_digits max acc (c ∷ s) =
    let acc' = acc * 10 + (c - b'0') in
    let rest = parse_digits max acc' s in if is_digit c && leb acc' max then rest else none

-- A text with no digit is refused.
unfoldable pub parse_some_digits : (max : ℕ) → Bytes → Option ℕ
parse_some_digits max [] = none
parse_some_digits max (c ∷ s) = parse_digits max 0 (c ∷ s)

-- `s.parse::<uN>()` at the maximum `max` of the type: one leading `+` is allowed.
unfoldable pub parse_uint : (max : ℕ) → Bytes → Option ℕ
unfolding parse_some_digits
parse_uint max [] = none
parse_uint max (c ∷ s) =
    if c == b'+' then parse_some_digits max s else parse_some_digits max (c ∷ s)

abbrev pub u16_max : ℕ
u16_max = 2 ^ 16 - 1

abbrev pub u32_max : ℕ
u32_max = 2 ^ 32 - 1

abbrev pub u64_max : ℕ
u64_max = 2 ^ 64 - 1

-- `usize` on the 64-bit targets that the images are built for.
abbrev pub usize_max : ℕ
usize_max = u64_max
