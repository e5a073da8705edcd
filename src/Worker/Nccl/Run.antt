-- ===== src/Worker/Nccl/Run.antt =====
-- worker-rs/src/main.rs: `run_nccl` with the `cuda` feature, from the rendezvous to the loop.
pub mod Whole
pub mod Examples
use distributed_softmax.Prelude.{ℕ, Bool, List, ◌++◌, ◌⊎◌, from_sum}
use distributed_softmax.Prelude.Effects.{Effect, ◌>>=◌, ◌>>◌, pure}
use distributed_softmax.Errors.{with_prefix}
use distributed_softmax.Text.{Bytes, bytes}
use distributed_softmax.Floats.{Floats}
use distributed_softmax.Redis.{Redis}
use distributed_softmax.Cuda.{Kernel, Driver, Schedule}
use distributed_softmax.Sockets.{Setup}
use distributed_softmax.Worker.Handler.Task.{TaskMessage}
use distributed_softmax.Worker.Gpu.AllReduce.{ReduceOp, new_nccl_worker, all_reduce_softmax}
use distributed_softmax.Worker.Gpu.Rendezvous.{nccl_rendezvous}
use distributed_softmax.Worker.Nccl.{nccl_loop}

-- A communicator: what it makes in each round of this rank's value and those of the others.
abbrev pub Communicator : Floats → Type 0
Communicator F = (round : ℕ) → ReduceOp → F.F32 → Bytes ⊎ F.F32

module _ (F : Floats) (R : Redis) (info_enabled : Bool) (parse : Bytes → Bytes ⊎ TaskMessage F.F64)
    (driver : Driver) (schedule : Kernel → Schedule) (beyond : ℕ → F.F32)
    (from_rank : (rank world_size : ℕ) → Bytes → Bytes ⊎ Communicator F) (setup : Setup)
    (rank world_size : ℕ) (endpoint : Bytes) where
  -- The thread that receives, with what its socket returns.
  unfoldable pub receive_loop :
      Communicator F → List (Bytes ⊎ Bytes) → Effect R.State Bytes (Unit {0})
  receive_loop comm frames = do
    pure (with_prefix (bytes "ZMQ socket: ") (from_sum setup.socket))
    pure (with_prefix (bytes "ZMQ connect " ++ (endpoint ++ bytes ": ")) (from_sum setup.attach))
    nccl_loop F R info_enabled parse
        (λ round. all_reduce_softmax F driver schedule beyond (comm round)) 0 frames

  -- The device is the rank's, whatever `Config::cuda_device` says.
  unfoldable pub run_nccl :
      (new_id : Bytes ⊎ Bytes) (others : R.State → R.State) (uid_found : ℕ → R.State)
      (ready_found : ℕ → ℕ → R.State)
      → List (Bytes ⊎ Bytes)
      → Effect R.State Bytes (Unit {0})
  run_nccl new_id others uid_found ready_found frames = do
    id ← nccl_rendezvous R world_size rank new_id others uid_found ready_found
    comm ←
        pure
          (with_prefix (bytes "NCCL init: ") (new_nccl_worker driver from_rank rank world_size id))
    receive_loop comm frames
