-- ===== src/Worker/Gpu/AllReduce.antt =====
-- worker-rs/src/gpu_worker.rs: `NcclWorker`, one for each rank, over the communicator of NCCL.
pub mod Ranks
pub mod Sizes
pub mod Examples
use distributed_softmax.Prelude.{
  ℕ, ◌⊎◌, List, ◌++◌, map, length, Outcome, ok, err, panic, ◌>>=◌, ◌>>◌, from_sum,
}
use distributed_softmax.Text.{Bytes, bytes, to_decimal}
use distributed_softmax.Errors.{with_context, with_prefix}
use distributed_softmax.Floats.{Floats}
use distributed_softmax.Cuda.{
  Kernel, block_max_f32, exp_and_block_sum_f32, normalize_f32, Call, new_context, compile_ptx,
  load_module, load_function, clone_htod, alloc_zeros, launch, memcpy_dtoh, synchronize, Driver,
  run, Schedule,
}
use distributed_softmax.Worker.Gpu.Kernels.{device_max, device_exp, device_sum, device_normalize}

pub data ReduceOp : Type 0 where
  reduce_max : ReduceOp
  reduce_sum : ReduceOp

-- `NcclWorker::new`, with what `Comm::from_rank` makes of a rank, a number of ranks and an id. The rank
-- is the device's.
unfoldable pub new_nccl_worker :
    {C : Type 0}
    → Driver
    → (from_rank : (rank world_size : ℕ) → Bytes → Bytes ⊎ C)
    → (device_id world_size : ℕ) (id : Bytes) → Outcome Bytes C
new_nccl_worker driver from_rank device_id world_size id = do
  with_context (bytes "init CUDA device " ++ to_decimal device_id)
      (run driver (new_context device_id))
  with_context (bytes "NVRTC: compile partial_softmax.cu") (run driver compile_ptx)
  with_prefix (bytes "NCCL Comm::from_rank: ") (from_sum (from_rank device_id world_size id))

module _ (F : Floats) (driver : Driver) (schedule : Kernel → Schedule) (beyond : ℕ → F.F32) where
  open F use {F32}

  -- What the communicator makes of this rank's value and those of the others, or its error.
  module _ (comm : ReduceOp → F32 → Bytes ⊎ F32) where
    unfoldable pub all_reduce_softmax : List F32 → Outcome Bytes (List F32)
    all_reduce_softmax values = do
      with_context (bytes "load PTX") (run driver load_module)
      run driver (load_function block_max_f32)
      run driver (load_function exp_and_block_sum_f32)
      run driver (load_function normalize_f32)
      run driver (clone_htod (bytes "d_input"))
      run driver (alloc_zeros (bytes "d_bmaxes"))
      run driver (launch block_max_f32)
      run driver (memcpy_dtoh (bytes "d_bmaxes"))
      local_max ← ok (device_max F schedule beyond values)
      run driver (clone_htod (bytes "d_lmax"))
      run driver (alloc_zeros (bytes "d_gmax"))
      global_max ← with_prefix (bytes "AllReduce MAX: ") (from_sum (comm reduce_max local_max))
      with_prefix (bytes "sync: ") (run driver (synchronize (bytes "d_gmax")))
      run driver (memcpy_dtoh (bytes "d_gmax"))
      run driver (alloc_zeros (bytes "d_exp"))
      run driver (alloc_zeros (bytes "d_bsums"))
      run driver (launch exp_and_block_sum_f32)
      run driver (memcpy_dtoh (bytes "d_bsums"))
      local_sum ← ok (device_sum F schedule beyond values global_max)
      run driver (clone_htod (bytes "d_lsum"))
      run driver (alloc_zeros (bytes "d_gsum"))
      global_sum ← with_prefix (bytes "AllReduce SUM: ") (from_sum (comm reduce_sum local_sum))
      with_prefix (bytes "sync: ") (run driver (synchronize (bytes "d_gsum")))
      run driver (memcpy_dtoh (bytes "d_gsum"))
      run driver (alloc_zeros (bytes "d_out"))
      run driver (launch normalize_f32)
      run driver (memcpy_dtoh (bytes "d_out"))
      ok (
          device_normalize F schedule beyond values (device_exp F schedule beyond values global_max)
            global_sum)
