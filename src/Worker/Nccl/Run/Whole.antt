-- ===== src/Worker/Nccl/Run/Whole.antt =====
-- From the rendezvous to the slices that a rank leaves in Redis.
use distributed_softmax.Prelude.{
  ℕ, ◌<◌, ◌^◌, ◌≡◌, Bool, true, some, List, ◌∷◌, ◌++◌, map, length, All, ◌⊎◌, inr, Outcome, ok,
  from_sum,
}
use distributed_softmax.Prelude.Effects.{◌>>=◌, pure, bind_ok, pure_then}
use distributed_softmax.Errors.{prefix_ok, context_ok, sum_ok, then_ok, with_prefix, with_context}
use distributed_softmax.Text.{Bytes, bytes, to_decimal}
use distributed_softmax.Floats.{Floats, IsBitExact}
use distributed_softmax.Wire.{little}
use distributed_softmax.Json.{Parser}
use distributed_softmax.Redis.{Redis, IsStore}
use distributed_softmax.Cuda.{Kernel, new_context, compile_ptx, Driver, run, Schedule}
use distributed_softmax.Sockets.{Setup}
use distributed_softmax.Worker.Handler.Task.{TaskMessage, worker_key}
use distributed_softmax.Worker.Gpu.AllReduce.{new_nccl_worker, all_reduce_softmax}
use distributed_softmax.Worker.Gpu.AllReduce.Sizes.{length-all_reduce_softmax}
use distributed_softmax.Worker.Gpu.Rendezvous.{nccl_rendezvous}
use distributed_softmax.Worker.Gpu.Rendezvous.Barrier.{AllMarked}
use distributed_softmax.Worker.Gpu.Rendezvous.Meets.{IsSource, nccl_rendezvous_ok}
use distributed_softmax.Worker.Nccl.{nccl_loop}
use distributed_softmax.Worker.Nccl.Loop.{Spares, read_slice-nccl_loop}
use distributed_softmax.Worker.Nccl.Run.{Communicator, receive_loop, run_nccl}
use distributed_softmax.Gateway.Aggregator.ReadSlice.{read_slice}

-- A communicator is made on the device with the rank's number.
new_nccl_worker_ok :
    {C : Type 0} (driver : Driver) (from_rank : (rank world_size : ℕ) → Bytes → Bytes ⊎ C)
    (rank world_size : ℕ) (id : Bytes) (comm : C)
    → new_nccl_worker driver from_rank rank world_size id ≡ ok comm
    → (driver (new_context rank) ≡ inr tt) × (from_rank rank world_size id ≡ inr comm)
unfolding new_nccl_worker
new_nccl_worker_ok driver from_rank rank world_size id comm h =
    let (device, rest) =
      then_ok
        (with_context (bytes "init CUDA device " ++ to_decimal rank)
          (run driver (new_context rank)))
        _ comm h in
    let (compiled, made) =
      then_ok (with_context (bytes "NVRTC: compile partial_softmax.cu") (run driver compile_ptx)) _
        comm rest in
    (
      sum_ok (driver (new_context rank)) tt (
          context_ok (bytes "init CUDA device " ++ to_decimal rank) (run driver (new_context rank))
            tt device),
      sum_ok (from_rank rank world_size id) comm (
          prefix_ok (bytes "NCCL Comm::from_rank: ") (from_sum (from_rank rank world_size id)) comm
            made),
    )

module _ (F : Floats) (R : Redis) (store : IsStore R) (info_enabled : Bool)
    (parse : Bytes → Bytes ⊎ TaskMessage F.F64) (driver : Driver) (schedule : Kernel → Schedule)
    (beyond : ℕ → F.F32) (from_rank : (rank world_size : ℕ) → Bytes → Bytes ⊎ Communicator F)
    (setup : Setup) (rank world_size : ℕ) (endpoint : Bytes) (new_id : Bytes ⊎ Bytes)
    (others : R.State → R.State) (uid_found : ℕ → R.State) (ready_found : ℕ → ℕ → R.State) where
  open R use {State}
  open F use {F32, F64, narrow}

  abbrev reduced : Communicator F → ℕ → List F32 → Outcome Bytes (List F32)
  reduced comm round = all_reduce_softmax F driver schedule beyond (comm round)

  receive_loop_ok :
      (comm : Communicator F) (frames : List (Bytes ⊎ Bytes)) (s s' : State)
      → receive_loop F R info_enabled parse driver schedule beyond from_rank setup rank world_size
          endpoint comm frames s
        ≡ (ok tt, s')
      → nccl_loop F R info_enabled parse (reduced comm) 0 frames s ≡ (ok tt, s')
  unfolding receive_loop
  receive_loop_ok comm frames s s' h =
      let (u, made, rest) =
        pure_then (with_prefix (bytes "ZMQ socket: ") (from_sum setup.socket))
          (λ u.
            pure (
              with_prefix (bytes "ZMQ connect " ++ (endpoint ++ bytes ": "))
                (from_sum setup.attach))
            >>= λ v. nccl_loop F R info_enabled parse (reduced comm) 0 frames)
          s s' tt h in
      let (v, connected, last) =
        pure_then
          (with_prefix (bytes "ZMQ connect " ++ (endpoint ++ bytes ": ")) (from_sum setup.attach))
          (λ v. nccl_loop F R info_enabled parse (reduced comm) 0 frames) s s' tt rest in
      last

  -- A rank whose loop has gone on over its messages has an id that it made, being rank 0, or found;
  -- it has found the marks of all ranks, and has a communicator for that id, on the device with its
  -- own number. What the communicator's reductions came to for a softmax message of fewer than 2 ^ 32
  -- numbers, after which no message writes under its slice's key, is in Redis, where the gateway
  -- reads it on a little-endian machine as normalized.
  pub run_nccl_lem :
      (B : IsBitExact F) (json : Parser F64)
      → (before after : List (Bytes ⊎ Bytes)) (raw : Bytes) (msg : TaskMessage F64) (s s' : State)
      → parse raw ≡ inr msg
      → msg.task ≡ bytes "softmax"
      → length msg.«data» < 2 ^ 32
      → All
          (Spares F R store info_enabled parse (λ r xs. ok xs) (worker_key msg.job_id msg.slice_id))
          after
      → run_nccl F R info_enabled parse driver schedule beyond from_rank setup rank world_size
          endpoint new_id others uid_found ready_found
          (before ++ inr raw ∷ after)
          s
        ≡ (ok tt, s')
      → (id : Bytes) × (comm : Communicator F) × (probs : List F32) × IsSource R world_size rank
          new_id others uid_found ready_found id
        × AllMarked R world_size rank ready_found
        × (driver (new_context rank) ≡ inr tt)
        × (from_rank rank world_size id ≡ inr comm)
        × (all_reduce_softmax F driver schedule beyond
              (comm (length before))
              (map narrow msg.«data»)
            ≡ ok probs)
        × (read_slice F R json little s' msg.job_id msg.slice_id
            ≡ ok (
                some (record {
                  exp_values = map F.widen probs;
                  local_max = F.zero64;
                  partial_sum = F.one64;
                  is_normalized = true;
                })))
  unfolding run_nccl
  run_nccl_lem B json before after raw msg s s' parsed task few spares h =
      let frames : List (Bytes ⊎ Bytes) = before ++ inr raw ∷ after in
      let (id, t, joined, rest) =
        bind_ok (nccl_rendezvous R world_size rank new_id others uid_found ready_found)
          (λ id.
            pure (
              with_prefix (bytes "NCCL init: ")
                (new_nccl_worker driver from_rank rank world_size id))
            >>= λ comm.
                receive_loop F R info_enabled parse driver schedule beyond from_rank setup rank
                  world_size endpoint comm frames)
          s s' tt h in
      let (sized_id, source, marked, writes, mine) =
        nccl_rendezvous_ok R world_size rank new_id others uid_found ready_found store id s t
          joined in
      let (comm, made, last) =
        pure_then
          (with_prefix (bytes "NCCL init: ") (new_nccl_worker driver from_rank rank world_size id))
          (λ comm.
            receive_loop F R info_enabled parse driver schedule beyond from_rank setup rank
              world_size endpoint comm frames)
          t s' tt rest in
      let (device, ranked) = new_nccl_worker_ok driver from_rank rank world_size id comm (
        prefix_ok (bytes "NCCL init: ") (new_nccl_worker driver from_rank rank world_size id) comm
          made) in
      let (probs, agreed, found) =
        read_slice-nccl_loop F R store info_enabled parse (reduced comm) B json
          (λ r. length-all_reduce_softmax F driver schedule beyond (comm r)) before after raw msg t
          s' parsed task few spares (receive_loop_ok comm frames t s' last) in
      (id, comm, probs, source, marked, device, ranked, agreed, found)
