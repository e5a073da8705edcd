-- ===== src/Gateway/Service/Slices.antt =====
-- gateway-rs/src/service.rs: how `submit_task` splits a vector into slices.
pub mod Even
pub mod Chunks
pub mod Examples
use distributed_softmax.Prelude.{
  ℕ, zero, suc, ◌+◌, ◌-◌, ◌/◌, ◌%◌, ◌^◌, Bool, true, false, ◌&&◌, Option, none, some, List, [], ◌∷◌,
  ◌++◌, ltb, leb, ◌==◌, if◌then◌else◌, length, take, drop, Outcome, ok, err, panic, or_panic, ◌>>=◌,
  range,
}
use distributed_softmax.Text.{Bytes, bytes, to_decimal, parse_uint, usize_max}
use distributed_softmax.Gateway.Config.{Env}
use mathlib.Core.Option

-- `tonic::Status`, by its code.
pub data Status : Type 0 where
  invalid_argument : Bytes → Status
  internal : Bytes → Status

-- `NUM_SLICES`, or 4 where it is missing, no `usize`, or zero.
unfoldable pub num_slices : Env → ℕ
unfolding Option.bind
num_slices env = elim (Option.bind (env (bytes "NUM_SLICES")) (parse_uint usize_max)) [
  | none ↦ 4
  | some n ↦ if ltb 0 n then n else 4
]

module _ {ℓ} {A : Type ℓ} where
  -- The loop of `even_chunks`, with `left` rounds to go.
  unfoldable pub even_loop :
      (base rem : ℕ) → List A → (left i start : ℕ) → List (List A) → Outcome Status (List (List A))
  even_loop base rem xs zero i start out = ok out
  even_loop base rem xs (suc left) i start out =
      let end = start + (base + (if ltb i rem then 1 else 0)) in
      or_panic (range xs start end) >>= λ chunk.
      even_loop base rem xs left (i + 1) end (out ++ (chunk ∷ []))

  -- A division by zero panics.
  unfoldable pub even_chunks : List A → ℕ → Outcome Status (List (List A))
  unfolding even_loop range
  even_chunks xs n = if n == 0 then panic else even_loop (length xs / n) (length xs % n) xs n 0 0 []

  -- `xs.chunks(size)` for a size that is not 0; a round for each element is enough.
  unfoldable pub chunks_loop : ℕ → ℕ → List A → List (List A)
  chunks_loop zero size xs = []
  chunks_loop (suc fuel) size [] = []
  chunks_loop (suc fuel) size (x ∷ xs) =
      take size (x ∷ xs) ∷ chunks_loop fuel size (drop size (x ∷ xs))

  -- A chunk size of 0 panics.
  unfoldable pub chunks : List A → ℕ → Outcome Status (List (List A))
  unfolding chunks_loop
  chunks xs size = if size == 0 then panic else ok (chunks_loop (length xs) size xs)

-- `(vector_size + num_slices - 1) / num_slices`, which wraps at 64 bits in a release build.
unfoldable pub slice_size : (vector_size num_slices : ℕ) → ℕ
slice_size vector_size count = ((vector_size + count) % 2 ^ 64 + 2 ^ 64 - 1) % 2 ^ 64 / count

abbrev pub too_short : (vector_size world_size : ℕ) → Bytes
too_short vector_size world_size =
    bytes "vector length "
    ++ (to_decimal vector_size
        ++ (bytes " < world_size "
            ++ (to_decimal world_size
                ++ bytes ": cannot give every GPU rank a non-empty slice in NCCL mode")))

-- The slices of `submit_task` for a vector that is not empty.
unfoldable pub split_vector {ℓ} :
    {A : Type ℓ} (nccl_dispatch : Bool) (world_size : ℕ)
    → Env
    → List A
    → Outcome Status (List (List A))
split_vector true world_size env xs =
    if ltb (length xs) world_size
    then err (invalid_argument (too_short (length xs) world_size))
    else even_chunks xs world_size
split_vector false world_size env xs = chunks xs (slice_size (length xs) (num_slices env))
