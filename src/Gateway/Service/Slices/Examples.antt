-- ===== src/Gateway/Service/Slices/Examples.antt =====
-- Splits of concrete vectors.
use distributed_softmax.Prelude.{
  ℕ, ◌/◌, ◌%◌, ◌≤◌, ◌<◌, ◌≡◌, refl, true, false, none, List, [], ◌∷◌, flatten, length, arith, All,
  ok, err,
}
use distributed_softmax.Gateway.Config.{Env}
use distributed_softmax.Gateway.Service.Slices.{
  num_slices, slice_size, split_vector, chunks, even_chunks, invalid_argument, too_short,
}
use distributed_softmax.Gateway.Service.Slices.Even.{
  HasSizes, split_vector-even, split_vector_short,
}
use distributed_softmax.Gateway.Service.Slices.Chunks.{IsSlice, split_vector-chunks}

abbrev no_env : Env
no_env name = none

abbrev five : List ℕ
five = 10 ∷ 20 ∷ 30 ∷ 40 ∷ 50 ∷ []

-- Five elements in slices of two are three slices, and not the four that are configured.
three_slices :
    split_vector false 4 no_env five ≡ ok ((10 ∷ 20 ∷ []) ∷ (30 ∷ 40 ∷ []) ∷ (50 ∷ []) ∷ [])
unfolding split_vector chunks num_slices slice_size
three_slices = refl

four_ranks :
    split_vector true 4 no_env five ≡ ok ((10 ∷ 20 ∷ []) ∷ (30 ∷ []) ∷ (40 ∷ []) ∷ (50 ∷ []) ∷ [])
unfolding split_vector even_chunks
four_ranks = refl

split_vector-chunks_example :
    (out : List (List ℕ)) × (split_vector false 4 no_env five ≡ ok out)
    × (flatten out ≡ five)
    × (length out ≤ num_slices no_env)
    × All (IsSlice (slice_size 5 (num_slices no_env))) out
unfolding num_slices
split_vector-chunks_example = split_vector-chunks 4 no_env five (omega arith) (omega arith)

split_vector-even_example :
    (out : List (List ℕ)) × (split_vector true 4 no_env five ≡ ok out)
    × (flatten out ≡ five)
    × (length out ≡ 4)
    × HasSizes (5 / 4) (5 % 4) 0 out
    × (0 < 5 / 4)
split_vector-even_example = split_vector-even 4 no_env five (omega arith) (omega arith)

split_vector_short_example :
    split_vector true 8 no_env five ≡ err (invalid_argument (too_short 5 8))
split_vector_short_example = split_vector_short 8 no_env five (omega arith)
