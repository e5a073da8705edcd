-- ===== src/Gateway/Service/Slices/Chunks.antt =====
-- The slices of `submit_task` outside NCCL mode: `vector.chunks(slice_size)`.
use distributed_softmax.Prelude.{
  ℕ, zero, suc, ◌+◌, ◌-◌, ◌*◌, ◌/◌, ◌%◌, ◌^◌, ◌≤◌, ◌<◌, ◌≡◌, refl, ap, ◌∙◌, false, List, [], ◌∷◌,
  ◌++◌, arith, flatten, length, take, drop, take-append-drop, length-take, length-drop, All, ok,
  pos→==_zero,
}
use distributed_softmax.Gateway.Config.{Env}
use distributed_softmax.Gateway.Service.Slices.{
  num_slices, chunks_loop, chunks, slice_size, split_vector,
}

-- A slice with an element at least, and at most `size`.
abbrev pub IsSlice {ℓ} : {A : Type ℓ} → ℕ → List A → Type 0
IsSlice size s = (0 < length s) × (length s ≤ size)

module _ {ℓ} {A : Type ℓ} where
  flatten-chunks_loop :
      (fuel size : ℕ) (xs : List A)
      → 0 < size
      → length xs ≤ fuel
      → flatten (chunks_loop fuel size xs) ≡ xs
  unfolding chunks_loop flatten
  flatten-chunks_loop zero size [] h f = refl
  flatten-chunks_loop zero size (x ∷ xs) h f = absurd (omega arith)
  flatten-chunks_loop (suc fuel) size [] h f = refl
  flatten-chunks_loop (suc fuel) size (x ∷ xs) h f =
      ap (λ (t : List A). take size (x ∷ xs) ++ t)
        (flatten-chunks_loop fuel size (drop size (x ∷ xs)) h
          (omega (arith, length-drop size (x ∷ xs))))
      ∙ take-append-drop size (x ∷ xs)

  chunks_loop-IsSlice :
      (fuel size : ℕ) (xs : List A) → 0 < size → All (IsSlice size) (chunks_loop fuel size xs)
  unfolding chunks_loop
  chunks_loop-IsSlice zero size xs h = tt
  chunks_loop-IsSlice (suc fuel) size [] h = tt
  chunks_loop-IsSlice (suc fuel) size (x ∷ xs) h = (
    omega (arith, length-take size (x ∷ xs)),
    chunks_loop-IsSlice fuel size (drop size (x ∷ xs)) h,
  )

  -- A vector of at most `count` times `size` elements falls into at most `count` slices.
  length-chunks_loop-le :
      (fuel size count : ℕ) (xs : List A)
      → 0 < size
      → length xs ≤ count * size
      → length (chunks_loop fuel size xs) ≤ count
  unfolding chunks_loop
  length-chunks_loop-le zero size count xs h c = omega arith
  length-chunks_loop-le (suc fuel) size count [] h c = omega arith
  length-chunks_loop-le (suc fuel) size zero (x ∷ xs) h c = absurd (omega arith)
  length-chunks_loop-le (suc fuel) size (suc count) (x ∷ xs) h c = omega (
    arith,
    length-chunks_loop-le fuel size count (drop size (x ∷ xs)) h
        (omega (arith, length-drop size (x ∷ xs))),
  )

num_slices-pos : (env : Env) → 0 < num_slices env
unfolding num_slices
num_slices-pos env = ground arith

pub ceiling_bounds : (m count : ℕ) → 0 < count → count ≤ m → 0 < m / count
ceiling_bounds m count h le = grind arith

ceiling_covers : (m count : ℕ) → 0 < count → m < count * (m / count) + count
ceiling_covers m count h = omega arith

-- The rounded-up quotient, where the sum does not wrap.
slice_size-bounds :
    (n count : ℕ)
    → 0 < n
    → 0 < count
    → n + count < 2 ^ 64
    → (0 < slice_size n count) × (n ≤ count * slice_size n count)
unfolding slice_size
slice_size-bounds n count hn hc fits = rw numerator (
  ceiling_bounds (n + count - 1) count hc (omega arith),
  omega (arith, ceiling_covers (n + count - 1) count hc),
)
  where
    numerator : ((n + count) % 2 ^ 64 + 2 ^ 64 - 1) % 2 ^ 64 ≡ n + count - 1
    numerator = omega arith

-- Outside NCCL mode every non-empty vector is accepted, unless its length and the number of slices
-- add up to 2 ^ 64 or more. Its slices follow one another in the vector and make it up, none is empty
-- or longer than the slice size, and there are at most as many of them as configured.
pub split_vector-chunks {ℓ} :
    {A : Type ℓ} (world_size : ℕ) (env : Env) (xs : List A)
    → 0 < length xs
    → length xs + num_slices env < 2 ^ 64
    → (out : List (List A)) × (split_vector false world_size env xs ≡ ok out)
      × (flatten out ≡ xs)
      × (length out ≤ num_slices env)
      × All (IsSlice (slice_size (length xs) (num_slices env))) out
unfolding split_vector chunks
split_vector-chunks world_size env xs h fits = (
  chunks_loop (length xs) size xs,
  rw (pos→==_zero size bounds.0),
  flatten-chunks_loop (length xs) size xs bounds.0 (omega arith),
  length-chunks_loop-le (length xs) size (num_slices env) xs bounds.0 bounds.1,
  chunks_loop-IsSlice (length xs) size xs bounds.0,
)
  where
    size : ℕ
    size = slice_size (length xs) (num_slices env)

    bounds : (0 < size) × (length xs ≤ num_slices env * size)
    bounds = slice_size-bounds (length xs) (num_slices env) h (num_slices-pos env) fits
