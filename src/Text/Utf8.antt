-- ===== src/Text/Utf8.antt =====
-- `String::from_utf8`: which byte sequences are UTF-8.
use distributed_softmax.Prelude.{
  ℕ, ◌+◌, ◌-◌, ◌++◌, Bool, false, ◌&&◌, Option, none, some, [], ◌∷◌, ltb, leb, ◌==◌, if◌then◌else◌,
}
use distributed_softmax.Text.{Bytes, bytes, to_decimal}

-- How many continuation bytes follow, and the bounds of the next one.
abbrev pub Pending : Type 0
Pending = record { need : ℕ; lo : ℕ; hi : ℕ }

abbrev pending : ℕ → ℕ → ℕ → Option Pending
pending need lo hi = some (record { need = need; lo = lo; hi = hi })

abbrev pub idle : Pending
idle = record { need = 0; lo = 0x80; hi = 0xbf }

unfoldable pub first_byte : ℕ → Option Pending
first_byte b =
    if ltb b 0x80
    then pending 0 0x80 0xbf
    else if ltb b 0xc2
    then none
    else if ltb b 0xe0
    then pending 1 0x80 0xbf
    else if b == 0xe0
    then pending 2 0xa0 0xbf
    else if b == 0xed
    then pending 2 0x80 0x9f
    else if ltb b 0xf0
    then pending 2 0x80 0xbf
    else if b == 0xf0
    then pending 3 0x90 0xbf
    else if ltb b 0xf4
    then pending 3 0x80 0xbf
    else if b == 0xf4
    then pending 3 0x80 0x8f
    else none

unfoldable pub next_byte : Pending → ℕ → Option Pending
unfolding first_byte
next_byte p b =
    if p.need == 0
    then first_byte b
    else if leb p.lo b && leb b p.hi
    then pending (p.need - 1) 0x80 0xbf
    else none

unfoldable pub utf8_from : Pending → Bytes → Bool
unfolding next_byte
utf8_from p [] = p.need == 0
utf8_from p (b ∷ bs) = elim (next_byte p b) [ none ↦ false | some q ↦ utf8_from q bs ]

unfoldable pub is_utf8 : Bytes → Bool
unfolding utf8_from
is_utf8 = utf8_from idle

-- The text of the error. `start` is where the character begins that the byte `i` is in.
unfoldable pub utf8_error_from : Pending → (start i : ℕ) → Bytes → Bytes
unfolding next_byte
utf8_error_from p start i [] =
    bytes "incomplete utf-8 byte sequence from index " ++ to_decimal start
utf8_error_from p start i (b ∷ bs) =
    let begin = if p.need == 0 then i else start in
    elim (next_byte p b) [
      | none ↦
          bytes "invalid utf-8 sequence of "
          ++ (to_decimal (if p.need == 0 then 1 else i - start)
              ++ (bytes " bytes from index " ++ to_decimal begin))
      | some q ↦ utf8_error_from q begin (i + 1) bs
    ]

-- What `FromUtf8Error` shows, of bytes that are not UTF-8.
unfoldable pub utf8_error : Bytes → Bytes
unfolding utf8_error_from
utf8_error = utf8_error_from idle 0 0
