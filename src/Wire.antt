-- ===== src/Wire.antt =====
-- The byte order of the slice format that worker-rs/src/handler.rs writes and
-- gateway-rs/src/aggregator.rs reads: `to_le_bytes` and `from_ne_bytes` of Rust's integers.
pub mod Words
use distributed_softmax.Prelude.{ℕ, zero, suc, ◌+◌, ◌*◌, ◌/◌, ◌%◌, List, [], ◌∷◌, ◌++◌}
use mathlib.Core.List.{reverse}
use distributed_softmax.Text.{Bytes}

-- The first `width` bytes of `n`, the lowest one first.
unfoldable pub to_le_bytes : (width n : ℕ) → Bytes
to_le_bytes zero n = []
to_le_bytes (suc w) n = n % 256 ∷ to_le_bytes w (n / 256)

unfoldable pub from_le_bytes : Bytes → ℕ
from_le_bytes [] = 0
from_le_bytes (b ∷ bs) = b + 256 * from_le_bytes bs

-- The byte order of the machine that the gateway runs on.
pub data Endian : Type 0 where
  little big : Endian

unfoldable pub from_ne_bytes : Endian → Bytes → ℕ
from_ne_bytes little bs = from_le_bytes bs
from_ne_bytes big bs = from_le_bytes (reverse bs)
