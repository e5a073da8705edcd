-- ===== src/Worker/Start.antt =====
-- worker-rs/src/main.rs: `main`, from the configuration to the worker that runs.
pub mod Serves
pub mod Examples
use distributed_softmax.Prelude.{
  ℕ, Bool, true, false, not, ◌&&◌, ◌⊎◌, inl, inr, Option, none, ◌++◌, if◌then◌else◌, Outcome, ok,
  panic, ◌>>=◌, ◌>>◌, from_sum,
}
use distributed_softmax.Text.{Bytes, bytes, beq, to_decimal}
use distributed_softmax.Sockets.{Setup}
use distributed_softmax.Cuda.{Driver}
use distributed_softmax.Worker.Config.{Config, Plan, pull, nccl, plan}
use distributed_softmax.Worker.Gpu.Partial.{GpuWorker, init}
use distributed_softmax.Worker.Zmq.Connect.{connect_pull}

-- What runs in the end: the loop of `transport::zmq::run` with the cell GPU_WORKER, or `run_nccl` with
-- the `cuda` feature.
pub data Running : Type 0 where
  serves : (device : Option GpuWorker) (endpoint : Bytes) (max_concurrent : ℕ) → Running
  joins : (rank world_size : ℕ) (endpoint : Bytes) → Running

unfoldable pub worker_redis_url : Config → Bytes
worker_redis_url cfg =
    bytes "redis://" ++ (cfg.redis_host ++ (bytes ":" ++ to_decimal cfg.redis_port))

-- `expect`
abbrev pub or_panics {ℓ} : {A : Type ℓ} → Bytes ⊎ A → Outcome Bytes A
or_panics (inl e) = panic
or_panics (inr a) = ok a

-- With the `cuda` feature or without, and with what the crates and the system answer.
module _ (cuda : Bool) (driver : Driver) (open_client connect : Bytes → Bytes ⊎ Unit {0})
    (setup : Bytes → Setup) where
  -- The cell GPU_WORKER once the GPU is set up.
  unfoldable pub start_gpu : Config → Outcome Bytes (Option GpuWorker)
  start_gpu cfg =
      if cuda && not (beq cfg.transport (bytes "zmq_nccl"))
      then (let (result, cell) = init driver cfg.cuda_device none in result >> ok cell)
      else ok none

  unfoldable pub start_plan : Option GpuWorker → Plan → Outcome Bytes Running
  start_plan device (pull endpoint max_concurrent) =
      connect_pull (setup endpoint) endpoint >> ok (serves device endpoint max_concurrent)
  start_plan device (nccl rank world_size endpoint) =
      if cuda
      then ok (joins rank world_size endpoint)
      else connect_pull (setup endpoint) endpoint >> ok (serves device endpoint 1)

  unfoldable pub start_worker : Config → Outcome Bytes Running
  start_worker cfg = do
    from_sum (open_client (worker_redis_url cfg))
    or_panics (connect (worker_redis_url cfg))
    device ← start_gpu cfg
    known ← plan cfg
    start_plan device known
