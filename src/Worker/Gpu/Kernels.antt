-- ===== src/Worker/Gpu/Kernels.antt =====
-- worker-rs/kernels/partial_softmax.cu, and the steps of gpu_worker.rs that its two methods share: a
-- launch of a kernel over buffers that `alloc_zeros` made, and what the host makes of the results.
use distributed_softmax.Prelude.{ℕ, ◌+◌, ◌*◌, none, some, List, if◌then◌else◌, length, replicate}
use distributed_softmax.Prelude.Totals.{read}
use distributed_softmax.Floats.{Floats}
use distributed_softmax.Floats.Singles.{sum32, maximum32}
use distributed_softmax.Cuda.{
  Kernel, block_max_f32, exp_and_block_sum_f32, normalize_f32, Schedule, block_size, num_blocks,
  write_all, reduce_block,
}
use distributed_softmax.Cuda.Grid.{in_range}

module _ (F : Floats) where
  open F use {F32, zero32, pad32, add32, sub32, div32, max32, exp32}

  -- The indices of the kernels are below 2 ^ 31 where the lengths are at most 2 ^ 31 - 256.
  module _ (S : Schedule) (beyond : ℕ → F32) where
    unfoldable pub run_block_max_f32 : (values block_maxes : List F32) (n : ℕ) → List F32
    run_block_max_f32 values block_maxes n =
        write_all
          (λ b. reduce_block max32 (S.threads b) (λ tid.
            let i = b * block_size + tid in if in_range i n then read beyond values i else pad32))
          S.blocks block_maxes

    -- `expf(data[i] - global_max)`
    abbrev pub exp_value : (values : List F32) (global_max : F32) → ℕ → F32
    exp_value values global_max i = exp32 (sub32 (read beyond values i) global_max)

    -- `exp_out` and `block_sums`, after the launch.
    unfoldable pub run_exp_and_block_sum_f32 :
        (values exp_out block_sums : List F32) (global_max : F32) (n : ℕ) → List F32 × List F32
    run_exp_and_block_sum_f32 values exp_out block_sums global_max n = (
      write_all (λ i. if in_range i n then some (exp_value values global_max i) else none) S.ids
          exp_out,
      write_all
          (λ b. reduce_block add32 (S.threads b) (λ tid.
            let i = b * block_size + tid in
            if in_range i n then exp_value values global_max i else zero32))
          S.blocks block_sums,
    )

    unfoldable pub run_normalize_f32 :
        (exp_vals out : List F32) (global_sum : F32) (n : ℕ) → List F32
    run_normalize_f32 exp_vals out global_sum n =
        write_all
          (λ i. if in_range i n then some (div32 (read beyond exp_vals i) global_sum) else none)
          S.ids out

  module _ (schedule : Kernel → Schedule) (beyond : ℕ → F32) where
    -- The maximum of the blocks' maxima.
    unfoldable pub device_max : List F32 → F32
    device_max values =
        let n = length values in
        maximum32 F (
          run_block_max_f32 (schedule block_max_f32) beyond values (replicate (num_blocks n) zero32)
            n)

    -- The exponentials and the blocks' sums.
    abbrev pub exp_pass : List F32 → F32 → List F32 × List F32
    exp_pass values global_max =
        let n = length values in
        run_exp_and_block_sum_f32 (schedule exp_and_block_sum_f32) beyond values
          (replicate n zero32) (replicate (num_blocks n) zero32) global_max n

    unfoldable pub device_exp : List F32 → F32 → List F32
    device_exp values global_max = (exp_pass values global_max).0

    -- The sum of the blocks' sums.
    unfoldable pub device_sum : List F32 → F32 → F32
    device_sum values global_max = sum32 F ((exp_pass values global_max).1)

    unfoldable pub device_normalize :
        (values : List F32) (exps : List F32) (global_sum : F32) → List F32
    device_normalize values exps global_sum =
        let n = length values in
        run_normalize_f32 (schedule normalize_f32) beyond exps (replicate n zero32) global_sum n
