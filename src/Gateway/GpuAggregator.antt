-- ===== src/Gateway/GpuAggregator.antt =====
-- gateway-rs/src/gpu_aggregator.rs and gateway-rs/kernels/aggregate_softmax.cu: the aggregation on a
-- CUDA device. The driver, the order in which the launch runs its threads and what lies in the device's
-- memory beyond a buffer are parameters.
pub mod Elements
pub mod Agrees
pub mod Examples
use distributed_softmax.Prelude.{
  ℕ, suc, ◌+◌, foldl, ◌⊎◌, Option, none, some, List, [], ◌∷◌, ◌++◌, map, zip, length, replicate,
  Outcome, ok, err, panic, ◌>>=◌, ◌>>◌, if◌then◌else◌,
}
use distributed_softmax.Prelude.Int.{ℤ, pos, negsuc, as_i32}
use distributed_softmax.Prelude.Totals.{read}
use distributed_softmax.Errors.{with_context}
use distributed_softmax.Text.{Bytes, bytes}
use distributed_softmax.Floats.{Floats}
use distributed_softmax.Floats.Singles.{sum32}
use distributed_softmax.Cuda.{
  aggregate_normalize, Call, new_context, compile_ptx, new_stream, load_module, load_function,
  clone_htod, alloc_zeros, launch, memcpy_dtoh, Driver, run, Schedule, write_all,
}
use distributed_softmax.Cuda.Grid.{in_range}
use distributed_softmax.Gateway.Aggregator.Cpu.{SliceStats, global_max}

-- An aggregator is known by its device.
pub record GpuAggregator : Type 0 where
  pub device_id : ℕ

-- `GpuAggregator::init`
unfoldable pub init_aggregator : Driver → ℕ → Outcome Bytes GpuAggregator
init_aggregator driver device_id = do
  with_context (bytes "CudaContext::new") (run driver (new_context device_id))
  with_context (bytes "NVRTC compile_ptx") (run driver compile_ptx)
  ok (record { device_id = device_id })

-- `try_new`: an error is logged.
unfoldable pub try_new : Driver → ℕ → Option GpuAggregator
try_new driver device_id = elim (init_aggregator driver device_id) [
  | ok aggregator ↦ some aggregator
  | err e ↦ none
  | panic ↦ none
]

-- `global`, with the cell GPU_AGGREGATOR: what it returns, and the cell after it.
unfoldable pub global_aggregator :
    Driver
    → ℕ
    → Option (Option GpuAggregator)
    → Option GpuAggregator × Option (Option GpuAggregator)
global_aggregator driver device_id (some known) = (known, some known)
global_aggregator driver device_id none = let made = try_new driver device_id in (made, some made)

-- An array at an `int` of the device.
abbrev pub read_at {ℓ} : {A : Type ℓ} → (beyond : ℕ → A) → List A → ℤ → A
read_at beyond xs (pos i) = read beyond xs i
read_at beyond xs (negsuc i) = beyond i

module _ (F : Floats) where
  open F use {F64, F32, exp, sub, narrow, zero32, one32, mul32, div32}

  unfoldable pub adjusts_of : List (SliceStats F) → List F32
  adjusts_of stats = map (λ s. narrow (exp (sub s.local_max (global_max F stats)))) stats

  unfoldable pub device_global_sum : List (SliceStats F) → F32
  device_global_sum stats =
      sum32 F (map (λ (s, a). mul32 (narrow s.partial_sum) a) (zip stats (adjusts_of stats)))

  unfoldable pub inv_global_sum : List (SliceStats F) → F32
  inv_global_sum stats = div32 one32 (device_global_sum stats)

  -- `total`
  unfoldable pub total_elements : List (SliceStats F) → ℕ
  total_elements stats = foldl ◌+◌ 0 (map (λ s. length s.exp_values) stats)

  -- `exp_vals_host` and `slice_ids_host`
  abbrev pub HostArrays : Type 0
  HostArrays = List F32 × List ℤ

  unfoldable pub push_values : ℕ → List F64 → HostArrays → HostArrays
  push_values i [] arrays = arrays
  push_values i (v ∷ vs) (exp_vals, slice_ids) =
      push_values i vs (exp_vals ++ (narrow v ∷ []), slice_ids ++ (as_i32 i ∷ []))

  -- The slices from index `i` on.
  unfoldable pub push_slices : ℕ → List (SliceStats F) → HostArrays → HostArrays
  push_slices i [] arrays = arrays
  push_slices i (s ∷ rest) arrays = push_slices (suc i) rest (push_values i s.exp_values arrays)

  unfoldable pub host_arrays : List (SliceStats F) → HostArrays
  host_arrays stats = push_slices 0 stats ([], [])

  module _ (S : Schedule) (beyond : ℕ → F32) (beyond_ids : ℕ → ℤ) where
    unfoldable pub run_aggregate_normalize :
        (exp_vals adjusts : List F32) (slice_ids : List ℤ) (out : List F32) (inv : F32) (n : ℕ)
        → List F32
    run_aggregate_normalize exp_vals adjusts slice_ids out inv n =
        write_all
          (λ k.
            if in_range k n
            then some (
                mul32
                  (mul32 (read beyond exp_vals k)
                    (read_at beyond adjusts (read beyond_ids slice_ids k)))
                  inv)
            else none)
          S.ids out

    unfoldable pub gpu_aggregate : Driver → List (SliceStats F) → Outcome Bytes (List F32)
    gpu_aggregate driver [] = ok []
    gpu_aggregate driver (first ∷ others) =
        let stats = first ∷ others in
        let (exp_vals, slice_ids) = host_arrays stats in
        let total = total_elements stats in
        do
          run driver new_stream
          run driver (clone_htod (bytes "exp_vals_dev"))
          run driver (clone_htod (bytes "adjusts_dev"))
          run driver (clone_htod (bytes "slice_ids_dev"))
          run driver (alloc_zeros (bytes "out_dev"))
          run driver load_module
          run driver (load_function aggregate_normalize)
          run driver (launch aggregate_normalize)
          run driver (memcpy_dtoh (bytes "out_dev"))
          ok (
              run_aggregate_normalize exp_vals (adjusts_of stats) slice_ids (replicate total zero32)
                (inv_global_sum stats) total)
