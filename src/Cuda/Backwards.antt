-- ===== src/Cuda/Backwards.antt =====
-- A complete order: every launch runs its threads and blocks from the last to the first.
use distributed_softmax.Prelude.{
  ℕ, zero, suc, ◌*◌, ◌≤◌, ◌<◌, ◌≡◌, refl, List, [], ◌∷◌, arith, inl, inr, eq_or_ne,
}
use distributed_softmax.Cuda.{Schedule, IsComplete, count, block_size}

abbrev down : ℕ → List ℕ
down zero = []
down (suc n) = n ∷ down n

count-down_above : (n t : ℕ) → n ≤ t → count t (down n) ≡ 0
count-down_above zero t h = refl
count-down_above (suc n) t h = ground (arith, count-down_above n t (omega arith))

count-down : (n t : ℕ) → t < n → count t (down n) ≡ 1
count-down zero t h = elim h [ ]
count-down (suc n) t h = elim (eq_or_ne t n) [
  | inl same ↦ ground (arith, count-down_above n t (omega arith))
  | inr other ↦ ground (arith, count-down n t (omega arith))
]

abbrev pub backwards : (blocks : ℕ) → Schedule
backwards blocks = record {
  threads = λ b s. down block_size;
  blocks = down blocks;
  ids = down (blocks * block_size);
}

pub backwards-IsComplete : (blocks : ℕ) → IsComplete blocks (backwards blocks)
backwards-IsComplete blocks = record {
  threads_once = λ b s t h. count-down block_size t h;
  blocks_run = λ b h. omega (arith, count-down blocks b h);
  ids_run = λ i h. omega (arith, count-down (blocks * block_size) i h);
}
