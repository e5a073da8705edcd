-- ===== src/Worker/Gpu/Partial.antt =====
-- worker-rs/src/gpu_worker.rs: `GpuWorker`, with `init` and `global`, and `compute_partial` of
-- worker-rs/src/handler.rs with the `cuda` feature.
pub mod Exact
pub mod Examples
use distributed_softmax.Prelude.{
  ℕ, ◌⊎◌, Option, none, some, List, ◌∷◌, ◌++◌, map, length, Outcome, ok, err, panic, ◌>>=◌, ◌>>◌,
  or_panic, from_sum,
}
use distributed_softmax.Errors.{with_context}
use distributed_softmax.Text.{Bytes, bytes, to_decimal}
use distributed_softmax.Floats.{Floats}
use distributed_softmax.Cuda.{
  Kernel, block_max_f32, exp_and_block_sum_f32, Call, new_context, compile_ptx, load_module,
  load_function, clone_htod, alloc_zeros, launch, memcpy_dtoh, Driver, run, Schedule,
}
use distributed_softmax.Worker.Softmax.{PartialStats}
use distributed_softmax.Worker.Gpu.Kernels.{device_max, device_exp, device_sum}

-- A worker is known by its device.
pub record GpuWorker : Type 0 where
  pub device_id : ℕ

-- `GpuWorker::new`
unfoldable pub new_worker : Driver → ℕ → Outcome Bytes GpuWorker
new_worker driver device_id = do
  with_context (bytes "init CUDA device " ++ to_decimal device_id)
      (run driver (new_context device_id))
  with_context (bytes "NVRTC: compile partial_softmax.cu") (run driver compile_ptx)
  ok (record { device_id = device_id })

-- `OnceLock::set`: a value that is there stays.
abbrev pub set_once {ℓ} : {A : Type ℓ} → A → Option A → Outcome Bytes (Unit {0}) × Option A
set_once a none = (ok tt, some a)
set_once a (some b) = (err (bytes "GPU worker already initialized"), some b)

-- `init`, with the cell GPU_WORKER.
unfoldable pub init : Driver → ℕ → Option GpuWorker → Outcome Bytes (Unit {0}) × Option GpuWorker
init driver device_id cell = elim (new_worker driver device_id) [
  | ok worker ↦ set_once worker cell
  | err e ↦ (err e, cell)
  | panic ↦ (panic, cell)
]

-- `global`
unfoldable pub global_worker : Option GpuWorker → Outcome Bytes GpuWorker
global_worker cell = or_panic cell

-- `.context("H→D ...")`
abbrev pub to_device : Bytes → Bytes
to_device what = bytes "H" ++ (0xE2 ∷ 0x86 ∷ 0x92 ∷ (bytes "D " ++ what))

abbrev pub to_host : Bytes → Bytes
to_host what = bytes "D" ++ (0xE2 ∷ 0x86 ∷ 0x92 ∷ (bytes "H " ++ what))

module _ (F : Floats) (driver : Driver) (schedule : Kernel → Schedule) (beyond : ℕ → F.F32) where
  open F use {F64, F32, widen, narrow}

  unfoldable pub partial_softmax : List F32 → Outcome Bytes (PartialStats F)
  partial_softmax values = do
    with_context (bytes "load PTX module") (run driver load_module)
    with_context (bytes "get block_max_f32") (run driver (load_function block_max_f32))
    with_context (bytes "get exp_and_block_sum_f32")
        (run driver (load_function exp_and_block_sum_f32))
    with_context (to_device (bytes "input")) (run driver (clone_htod (bytes "d_input")))
    with_context (bytes "alloc block_maxes") (run driver (alloc_zeros (bytes "d_bmaxes")))
    with_context (bytes "launch block_max_f32") (run driver (launch block_max_f32))
    with_context (to_host (bytes "block_maxes")) (run driver (memcpy_dtoh (bytes "d_bmaxes")))
    global_max ← ok (device_max F schedule beyond values)
    with_context (bytes "alloc exp") (run driver (alloc_zeros (bytes "d_exp")))
    with_context (bytes "alloc block_sums") (run driver (alloc_zeros (bytes "d_bsums")))
    with_context (bytes "launch exp_and_block_sum_f32") (run driver (launch exp_and_block_sum_f32))
    with_context (to_host (bytes "exp")) (run driver (memcpy_dtoh (bytes "d_exp")))
    with_context (to_host (bytes "block_sums")) (run driver (memcpy_dtoh (bytes "d_bsums")))
    ok (record {
      local_max = widen global_max;
      partial_sum = widen (device_sum F schedule beyond values global_max);
      exp_values = device_exp F schedule beyond values global_max;
    })

  -- A panic on the thread of the pool is an error of the task; no worker at all is such a panic.
  unfoldable pub compute_gpu : Option GpuWorker → List F64 → Outcome Bytes (PartialStats F)
  compute_gpu cell values =
      elim (global_worker cell >>= λ worker. partial_softmax (map narrow values)) [
        | ok stats ↦ ok stats
        | err e ↦ err e
        | panic ↦ err (bytes "spawn_blocking panicked")
      ]
