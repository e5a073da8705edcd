-- ===== src/Worker/Handler/Encode.antt =====
-- worker-rs/src/handler.rs: `encode_partial` and `encode_normalized`.
use distributed_softmax.Prelude.{ℕ, ◌%◌, ◌^◌, List, [], ◌∷◌, ◌++◌, length}
use distributed_softmax.Text.{Bytes}
use distributed_softmax.Floats.{Floats}
use distributed_softmax.Wire.{to_le_bytes}
use distributed_softmax.Worker.Softmax.{PartialStats}

abbrev pub magic_partial : ℕ
magic_partial = 0x01

abbrev pub magic_normalized : ℕ
magic_normalized = 0x02

module _ (F : Floats) where
  open F use {F32, to_bits64, to_bits32}

  -- The loop `for &v in … { buf.extend_from_slice(&v.to_le_bytes()) }`.
  unfoldable pub encode_values : List F32 → Bytes
  encode_values [] = []
  encode_values (v ∷ vs) = to_le_bytes 4 (to_bits32 v) ++ encode_values vs

  -- `len() as u32`, as four bytes.
  unfoldable pub encode_count : List F32 → Bytes
  encode_count vs = to_le_bytes 4 (length vs % 2 ^ 32)

  unfoldable pub encode_partial : PartialStats F → Bytes
  encode_partial stats =
      magic_partial
      ∷ (to_le_bytes 8 (to_bits64 stats.local_max)
          ++ (to_le_bytes 8 (to_bits64 stats.partial_sum)
              ++ (encode_count stats.exp_values ++ encode_values stats.exp_values)))

  unfoldable pub encode_normalized : List F32 → Bytes
  encode_normalized probs = magic_normalized ∷ (encode_count probs ++ encode_values probs)
