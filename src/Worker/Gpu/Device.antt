-- ===== src/Worker/Gpu/Device.antt =====
-- What the kernels compute, for any complete order of the threads and the blocks.
use distributed_softmax.Prelude.{
  ℕ, suc, ◌-◌, ◌*◌, ◌%◌, ◌≡◌, refl, sym, ap, ◌∙◌, none, some, List, [], ◌∷◌, ◌==◌, foldl, map,
  length, if◌then◌else◌, arith, replicate, length-replicate, inl, inr, eq_or_ne, Bool, true, false,
  subst, ==_of_eq, ne→==_false, ◌≢◌,
}
use distributed_softmax.Prelude.Totals.{tabulate-read, read, total, total_unit, total_same}
use distributed_softmax.Floats.{Floats, IsExact}
use distributed_softmax.Floats.Singles.{
  sum32, maximum32, add32-IsMonoid, max32-IsMonoid, add32_comm, max32_comm, max32_self,
}
use distributed_softmax.Cuda.{
  Kernel, block_max_f32, exp_and_block_sum_f32, normalize_f32, Schedule, IsComplete, num_blocks,
  block_size, write_all,
}
use distributed_softmax.Cuda.Writes.{write_all-tabulate}
use distributed_softmax.Cuda.Grid.{
  Fits, in_range, guarded, guarded_below, num_blocks_lem, foldl-blocks, total-guarded,
}
use distributed_softmax.Worker.Gpu.Kernels.{
  run_block_max_f32, run_exp_and_block_sum_f32, run_normalize_f32, device_max, device_exp,
  device_sum, device_normalize,
}

map_self {ℓ} : {A : Type ℓ} (xs : List A) → map (λ x. x) xs ≡ xs
map_self [] = refl
map_self (x ∷ xs) = ap (◌∷◌ x) (map_self xs)

-- One value for every element of an array, stored by the threads of the grid.
stores_all {ℓ} :
    {A : Type ℓ} {B : Type 0} (g : B → A) (beyond : ℕ → B) (xs : List B) (S : Schedule) (z : A)
    → Fits (length xs)
    → IsComplete (num_blocks (length xs)) S
    → write_all
        (λ i. if in_range i (length xs) then some (g (read beyond xs i)) else none)
        S.ids
        (replicate (length xs) z)
      ≡ map g xs
stores_all g beyond xs S z fits complete =
    write_all-tabulate (λ i. g (read beyond xs i))
      (guarded (length xs) (λ i. some (g (read beyond xs i))) none) (length xs)
      (λ i h. guarded_below (length xs) fits (λ i. some (g (read beyond xs i))) none i h) S.ids
      (replicate (length xs) z) (length-replicate (length xs) z)
      (λ i h. complete.ids_run i (omega (arith, (num_blocks_lem (length xs) fits).0)))
    ∙ tabulate-read g beyond xs

-- All launches for so many elements run to their end.
abbrev pub Completes : (Kernel → Schedule) → ℕ → Type 0
Completes schedule n = (k : Kernel) → IsComplete (num_blocks n) (schedule k)

module _ (F : Floats) (E : IsExact F) (schedule : Kernel → Schedule) (beyond : ℕ → F.F32) where
  open F use {F32, zero32, neg_infinity32, pad32, add32, sub32, div32, max32, exp32}

  module _ (xs : List F32) (fits : Fits (length xs))
      (completes : Completes schedule (length xs)) where
    abbrev padding : ℕ
    padding = num_blocks (length xs) * block_size - length xs

    max-padding :
        device_max F schedule beyond xs
        ≡ max32 (maximum32 F xs) (total max32 neg_infinity32 padding (λ i. pad32))
    unfolding device_max run_block_max_f32 maximum32
    max-padding =
        foldl-blocks max32 neg_infinity32 (max32-IsMonoid F E) (max32_comm F E)
          (schedule block_max_f32) (num_blocks (length xs)) (completes block_max_f32)
          (guarded (length xs) (read beyond xs) pad32) (replicate (num_blocks (length xs)) zero32)
          (length-replicate (num_blocks (length xs)) zero32)
        ∙ total-guarded max32 neg_infinity32 (max32-IsMonoid F E) (max32_comm F E) (λ x. x) beyond
            xs pad32 fits
        ∙ ap
            (λ t.
              max32 (foldl max32 neg_infinity32 t)
                (total max32 neg_infinity32 padding (λ i. pad32)))
            (map_self xs)

    no_padding : length xs % block_size ≡ 0 → padding ≡ 0
    unfolding num_blocks
    no_padding even = omega arith

    some_padding : length xs % block_size ≢ 0 → padding ≡ suc (padding - 1)
    unfolding num_blocks
    some_padding odd = omega arith

    -- The maximum that the device finds has the padding in it exactly where the last block has idle
    -- threads.
    pub device_max-padded :
        device_max F schedule beyond xs
        ≡ (if length xs % block_size == 0 then maximum32 F xs else max32 (maximum32 F xs) pad32)
    unfolding total
    device_max-padded = elim (eq_or_ne (length xs % block_size) 0) [
      | inl even ↦
          max-padding
          ∙ ap (padded_by) (no_padding even)
          ∙ (max32-IsMonoid F E).right_unit (maximum32 F xs)
          ∙ sym (choice true (==_of_eq (length xs % block_size) 0 even))
      | inr odd ↦
          max-padding
          ∙ ap padded_by (some_padding odd)
          ∙ ap (max32 (maximum32 F xs)) (
              total_same max32 neg_infinity32 (max32-IsMonoid F E) pad32 (max32_self F E pad32)
                (padding - 1) (λ i. pad32) (λ i. refl))
          ∙ sym (choice false (ne→==_false (length xs % block_size) 0 odd))
    ]
      where
        padded_by : ℕ → F32
        padded_by k = max32 (maximum32 F xs) (total max32 neg_infinity32 k (λ i. pad32))

        choice :
            (b : Bool)
            → (length xs % block_size == 0) ≡ b
            → (if length xs % block_size == 0 then maximum32 F xs else max32 (maximum32 F xs) pad32)
              ≡ (if b then maximum32 F xs else max32 (maximum32 F xs) pad32)
        choice b h = ap (λ c. if c then maximum32 F xs else max32 (maximum32 F xs) pad32) h

    pub device_exp-map :
        (top : F32) → device_exp F schedule beyond xs top ≡ map (λ x. exp32 (sub32 x top)) xs
    unfolding device_exp run_exp_and_block_sum_f32
    device_exp-map top =
        stores_all (λ x. exp32 (sub32 x top)) beyond xs (schedule exp_and_block_sum_f32) zero32 fits
          (completes exp_and_block_sum_f32)

    pub device_sum-sum :
        (top : F32)
        → device_sum F schedule beyond xs top ≡ sum32 F (map (λ x. exp32 (sub32 x top)) xs)
    unfolding device_sum run_exp_and_block_sum_f32 sum32
    device_sum-sum top =
        foldl-blocks add32 zero32 (add32-IsMonoid F E) (add32_comm F E)
          (schedule exp_and_block_sum_f32) (num_blocks (length xs))
          (completes exp_and_block_sum_f32)
          (guarded (length xs) (λ i. exp32 (sub32 (read beyond xs i) top)) zero32)
          (replicate (num_blocks (length xs)) zero32)
          (length-replicate (num_blocks (length xs)) zero32)
        ∙ total-guarded add32 zero32 (add32-IsMonoid F E) (add32_comm F E)
            (λ x. exp32 (sub32 x top)) beyond xs zero32 fits
        ∙ ap (add32 (foldl add32 zero32 (map (λ x. exp32 (sub32 x top)) xs)))
            (total_unit add32 zero32 (add32-IsMonoid F E) padding (λ i. zero32) (λ i. refl))
        ∙ (add32-IsMonoid F E).right_unit _

    pub device_normalize-map :
        (exps : List F32) (norm : F32)
        → length exps ≡ length xs
        → device_normalize F schedule beyond xs exps norm ≡ map (λ w. div32 w norm) exps
    unfolding device_normalize run_normalize_f32
    device_normalize-map exps norm same =
        subst
          (λ n.
            write_all (λ i. if in_range i n then some (div32 (read beyond exps i) norm) else none)
              (schedule normalize_f32).ids (replicate n zero32)
            ≡ map (λ w. div32 w norm) exps)
          same
          (stores_all (λ w. div32 w norm) beyond exps (schedule normalize_f32) zero32
            (subst Fits (sym same) fits)
            (subst (λ n. IsComplete (num_blocks n) (schedule normalize_f32)) (sym same)
              (completes normalize_f32)))
