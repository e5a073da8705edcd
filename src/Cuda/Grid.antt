-- ===== src/Cuda/Grid.antt =====
-- A launch of one thread for each element, 256 to a block: which threads have an element, and what the
-- blocks' results and the threads' stores come to.
use distributed_softmax.Prelude.{
  ℕ, ◌+◌, ◌-◌, ◌*◌, ◌^◌, ◌≤◌, ◌<◌, ◌≡◌, refl, sym, ap, ap₂, ◌∙◌, List, foldl, map, length, Bool,
  ltb, lt→ltb, le→ltb_false, if◌then◌else◌, arith, IsMonoid,
}
use distributed_softmax.Prelude.Int.{ltb_ℤ, as_i32}
use distributed_softmax.Prelude.Totals.{
  tabulate-read, read, total, total_congr, total_split, total_blocks, foldl-tabulate,
}
use distributed_softmax.Cuda.{Schedule, IsComplete, num_blocks, block_size, write_all, reduce_block}
use distributed_softmax.Cuda.Writes.{write_all-tabulate}
use distributed_softmax.Cuda.Reduction.{reduce_block-total}

-- `i < n` of a kernel, whose index and length are `int`s.
abbrev pub in_range : ℕ → ℕ → Bool
in_range i n = ltb_ℤ (as_i32 i) (as_i32 n)

-- The lengths whose grids have indices below 2 ^ 31.
abbrev pub Fits : ℕ → Type 0
Fits n = n + block_size ≤ 2 ^ 31

pub in_range-ltb : (i n : ℕ) → i < 2 ^ 31 → n < 2 ^ 31 → in_range i n ≡ ltb i n
in_range-ltb i n h k = ground arith

-- The blocks have room for all elements, and less than a block more.
pub num_blocks_lem :
    (n : ℕ)
    → Fits n
    → (n ≤ num_blocks n * block_size) × (num_blocks n * block_size < n + block_size)
unfolding num_blocks
num_blocks_lem n h = (omega arith, omega arith)

module _ {ℓ} {A : Type ℓ} where
  -- What a thread has: a value of its element, or `pad`.
  abbrev pub guarded : (n : ℕ) → (ℕ → A) → A → ℕ → A
  guarded n f pad i = if in_range i n then f i else pad

  pub guarded_below :
      (n : ℕ) → Fits n → (f : ℕ → A) (pad : A) (i : ℕ) → i < n → guarded n f pad i ≡ f i
  guarded_below n fits f pad i h =
      rw (in_range-ltb i n (omega arith) (omega arith), lt→ltb i n h) refl

  guarded_above :
      (n : ℕ)
      → Fits n
      → (f : ℕ → A) (pad : A) (i : ℕ) → n ≤ i
      → i < n + block_size
      → guarded n f pad i ≡ pad
  guarded_above n fits f pad i h k =
      rw (in_range-ltb i n (omega arith) (omega arith), le→ltb_false i n h) refl

  module _ (op : A → A → A) (e : A) (laws : IsMonoid op e)
      (comm : (a b : A) → op a b ≡ op b a) where
    -- The results of the blocks, put together, are the total over the threads of the grid.
    pub foldl-blocks :
        (S : Schedule) (blocks : ℕ)
        → IsComplete blocks S
        → (value : ℕ → A) (out : List A) → length out ≡ blocks
        → foldl op e (
            write_all
              (λ b. reduce_block op (S.threads b) (λ tid. value (b * block_size + tid)))
              S.blocks
              out)
          ≡ total op e (blocks * block_size) value
    foldl-blocks S blocks complete value out size =
        ap (foldl op e) (
          write_all-tabulate (λ b. total op e block_size (λ tid. value (b * block_size + tid)))
            (λ b. reduce_block op (S.threads b) (λ tid. value (b * block_size + tid))) blocks
            (λ b h.
              reduce_block-total op e laws comm (S.threads b) (complete.threads_once b)
                (λ tid. value (b * block_size + tid)))
            S.blocks out size (λ b h. complete.blocks_run b h))
        ∙ foldl-tabulate op e laws blocks
            (λ b. total op e block_size (λ tid. value (b * block_size + tid)))
        ∙ total_blocks op e laws blocks block_size value

    -- Over the grid, the values of an array's elements come to their fold, and the rest of the threads
    -- adds the padding.
    pub total-guarded :
        {B : Type 0} (g : B → A) (beyond : ℕ → B) (xs : List B) (pad : A)
        → Fits (length xs)
        → total op e
            (num_blocks (length xs) * block_size)
            (guarded (length xs) (λ i. g (read beyond xs i)) pad)
          ≡ op
              (foldl op e (map g xs))
              (total op e (num_blocks (length xs) * block_size - length xs) (λ i. pad))
    total-guarded g beyond xs pad fits =
        ap (λ k. total op e k whole) (omega (arith, (num_blocks_lem (length xs) fits).0))
        ∙ total_split op e laws (length xs) rest whole
        ∙ ap₂ op
            (total_congr op e (length xs) whole (λ i. g (read beyond xs i))
                (λ i h. guarded_below (length xs) fits (λ i. g (read beyond xs i)) pad i h)
              ∙ sym (foldl-tabulate op e laws (length xs) (λ i. g (read beyond xs i)))
              ∙ ap (foldl op e) (tabulate-read g beyond xs))
            (total_congr op e rest (λ i. whole (length xs + i)) (λ i. pad)
              (λ i h.
                guarded_above (length xs) fits (λ i. g (read beyond xs i)) pad (length xs + i)
                  (omega arith) (omega (arith, room))))
      where
        whole : ℕ → A
        whole = guarded (length xs) (λ i. g (read beyond xs i)) pad

        rest : ℕ
        rest = num_blocks (length xs) * block_size - length xs

        room : num_blocks (length xs) * block_size < length xs + block_size
        room = (num_blocks_lem (length xs) fits).1
