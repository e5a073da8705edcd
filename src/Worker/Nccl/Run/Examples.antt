-- ===== src/Worker/Nccl/Run/Examples.antt =====
-- A rank on its own, with one message.
use distributed_softmax.Prelude.{
  ℕ, ◌≡◌, refl, true, some, none, List, [], ◌∷◌, map, inr, ◌⊎◌, ok, arith, replicate,
}
use distributed_softmax.Text.{Bytes, bytes, beq, to_decimal, to_decimal_loop}
use distributed_softmax.Text.Utf8.{is_utf8}
use distributed_softmax.Floats.FixedPoint.{fixed_point, fixed_point-IsBitExact, word32}
use distributed_softmax.Wire.{little}
use distributed_softmax.Redis.Memory.{memory, memory-IsStore}
use distributed_softmax.Cuda.{Kernel, Driver, Schedule, new_context}
use distributed_softmax.Cuda.Backwards.{backwards}
use distributed_softmax.Sockets.{Setup}
use distributed_softmax.Worker.Handler.Task.{write_result, logged_id, is_char_boundary}
use distributed_softmax.Worker.Handler.Task.Examples.{task, accepts}
use distributed_softmax.Worker.Gpu.AllReduce.{new_nccl_worker, all_reduce_softmax}
use distributed_softmax.Worker.Gpu.Rendezvous.{
  ready_key, nccl_rendezvous, obtain_id, publish_id, join, wait_ready, count_ready, check_id,
}
use distributed_softmax.Worker.Gpu.Rendezvous.Barrier.{AllMarked}
use distributed_softmax.Worker.Gpu.Rendezvous.Meets.{IsSource}
use distributed_softmax.Worker.Nccl.{nccl_loop, nccl_round, reduce_round, finish_round}
use distributed_softmax.Worker.Nccl.Examples.{no_json}
use distributed_softmax.Worker.Nccl.Run.{Communicator, run_nccl, receive_loop}
use distributed_softmax.Worker.Nccl.Run.Whole.{run_nccl_lem}
use distributed_softmax.Gateway.Aggregator.ReadSlice.{read_slice}

abbrev uid : Bytes
uid = replicate 128 7

abbrev calls_work : Driver
calls_work c = inr tt

abbrev in_blocks : Kernel → Schedule
in_blocks k = backwards 1

abbrev nothing : ℕ → fixed_point.F32
nothing i = word32 0

-- The sum and the maximum over one rank.
abbrev alone : Communicator fixed_point
alone round op x = inr x

abbrev joins : (rank world_size : ℕ) → Bytes → Bytes ⊎ Communicator fixed_point
joins rank world_size id = inr alone

abbrev pulls : Setup
pulls = record { spawn = inr tt; socket = inr tt; attach = inr tt; reports = true }

abbrev idle : memory.State → memory.State
idle s = s

abbrev marks : ℕ → ℕ → memory.State
marks k r = ((ready_key 0, bytes "1", none) ∷ [], [])

abbrev after : memory.State
after =
    (run_nccl fixed_point memory true (accepts (bytes "j1")) calls_work in_blocks nothing joins
      pulls 0 1 (bytes "ipc:///tmp/softmax_0") (inr uid) idle (λ k. ([], [])) marks (inr [] ∷ [])
      ([], [])).1

ran :
    run_nccl fixed_point memory true
      (accepts (bytes "j1"))
      calls_work
      in_blocks
      nothing
      joins
      pulls
      0
      1
      (bytes "ipc:///tmp/softmax_0")
      (inr uid)
      idle
      (λ k. ([], []))
      marks
      (inr [] ∷ [])
      ([], [])
    ≡ (ok tt, after)
unfolding run_nccl receive_loop nccl_loop nccl_round reduce_round finish_round write_result
    logged_id is_char_boundary nccl_rendezvous obtain_id publish_id join wait_ready count_ready
    check_id ready_key new_nccl_worker all_reduce_softmax beq to_decimal to_decimal_loop is_utf8
ran = refl

run_nccl_lem_example :
    (id : Bytes) × (comm : Communicator fixed_point) × (probs : List fixed_point.F32) × IsSource
      memory 1 0
      (inr uid)
      idle
      (λ k. ([], []))
      marks
      id
    × AllMarked memory 1 0 marks
    × (calls_work (new_context 0) ≡ inr tt)
    × (joins 0 1 id ≡ inr comm)
    × (all_reduce_softmax fixed_point calls_work in_blocks nothing
          (comm 0)
          (map fixed_point.narrow (task (bytes "j1")).«data»)
        ≡ ok probs)
    × (read_slice fixed_point memory no_json little after (bytes "j1") 2
        ≡ ok (
            some (record {
              exp_values = map fixed_point.widen probs;
              local_max = fixed_point.zero64;
              partial_sum = fixed_point.one64;
              is_normalized = true;
            })))
run_nccl_lem_example =
    run_nccl_lem fixed_point memory memory-IsStore true (accepts (bytes "j1")) calls_work in_blocks
      nothing joins pulls 0 1 (bytes "ipc:///tmp/softmax_0") (inr uid) idle (λ k. ([], [])) marks
      fixed_point-IsBitExact no_json [] [] [] (task (bytes "j1")) ([], []) after refl refl
      (omega arith) tt ran
