-- ===== src/Wire/Words.antt =====
-- Numbers survive the trip through their bytes.
use native.Mathlib.Nat.{pow-suc}
use distributed_softmax.Prelude.{
  ℕ, zero, suc, ◌+◌, ◌*◌, ◌/◌, ◌%◌, ◌^◌, ◌<◌, ◌≡◌, refl, ap, arith, length, ◌∙◌,
}
use distributed_softmax.Wire.{to_le_bytes, from_le_bytes, from_ne_bytes, little}

pub length-to_le_bytes : (w n : ℕ) → length (to_le_bytes w n) ≡ w
unfolding to_le_bytes
length-to_le_bytes zero n = refl
length-to_le_bytes (suc w) n = ap suc (length-to_le_bytes w (n / 256))

from_le_bytes-to_le_bytes : (w n : ℕ) → n < 256 ^ w → from_le_bytes (to_le_bytes w n) ≡ n
unfolding to_le_bytes from_le_bytes
from_le_bytes-to_le_bytes zero n h = omega arith
from_le_bytes-to_le_bytes (suc w) n h =
    let below : n / 256 < 256 ^ w = omega (arith, pow-suc 256 w) in
    ap (λ (t : ℕ). n % 256 + 256 * t) (from_le_bytes-to_le_bytes w (n / 256) below) ∙ omega arith

-- On a little-endian machine `from_ne_bytes` reads back what `to_le_bytes` wrote.
pub from_ne_bytes-to_le_bytes : (w n : ℕ) → n < 256 ^ w → from_ne_bytes little (to_le_bytes w n) ≡ n
unfolding from_ne_bytes
from_ne_bytes-to_le_bytes = from_le_bytes-to_le_bytes
