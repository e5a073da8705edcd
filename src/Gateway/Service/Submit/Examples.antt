-- ===== src/Gateway/Service/Submit/Examples.antt =====
-- A request for three numbers, in NCCL mode with two ranks.
use distributed_softmax.Prelude.{
  ℕ, zero, suc, ◌<◌, ◌≤◌, ◌≡◌, refl, true, none, some, List, [], ◌∷◌, map, flatten, ok, arith,
  range,
}
use distributed_softmax.Prelude.Int.{pos}
use distributed_softmax.Text.{
  Bytes, bytes, beq, to_decimal, to_decimal_loop, parse_uint, parse_some_digits, parse_digits,
}
use distributed_softmax.Floats.MaxPlus.{Level, max_plus, max_plus-IsExact, finite_level}
use distributed_softmax.Wire.{little}
use distributed_softmax.Redis.Memory.{memory}
use distributed_softmax.Gateway.RedisManager.{
  Serde, store_final_result, set_ex, update_progress, set_job_metadata,
}
use distributed_softmax.Gateway.RedisManager.Examples.{sample_serde, no_env}
use distributed_softmax.Gateway.SliceNotifier.{register_job, unregister_job}
use distributed_softmax.Gateway.Publisher.{zmq_multi_publisher, multi_publish, rank_send}
use distributed_softmax.Gateway.Aggregator.Cpu.Exact.{softmax}
use distributed_softmax.Gateway.Aggregator.Aggregate.{slice_timeout}
use distributed_softmax.Gateway.Aggregator.Aggregate.Examples.{
  job, early_part, late_part, no_json, found, read, part_stats, clock_after, early_part_found,
  late_part_found, read_honestly,
}
use distributed_softmax.Gateway.Aggregator.Aggregate.Pipeline.{Arrived}
use distributed_softmax.Gateway.Service.Slices.{split_vector, even_chunks, even_loop, num_slices}
use distributed_softmax.Gateway.Service.Submit.{
  TaskRequest, slices_of, publish_loop, task_text, subject_of, dispatch, submit_task,
}
use distributed_softmax.Gateway.Service.Submit.Dispatch.{
  messages, one_each, running, publish_loop_ranks,
}
use distributed_softmax.Gateway.Service.Submit.EndToEnd.{submit_task-softmax}

abbrev request : TaskRequest Level
request = record {
  job_id = job;
  task = bytes "softmax";
  vector = some (pos 3) ∷ some (pos 1) ∷ some (pos 5) ∷ [];
}

abbrev parts : List (List Level)
parts = early_part ∷ late_part ∷ []

abbrev serde : Serde Level
serde = sample_serde (softmax max_plus (flatten parts))

abbrev queues : List (List Bytes)
queues = [] ∷ [] ∷ []

three_numbers_split : slices_of max_plus true 2 no_env request ≡ ok parts
unfolding slices_of beq split_vector even_chunks even_loop range
three_numbers_split = refl

abbrev dispatched : memory.State × zmq_multi_publisher.State
dispatched =
    (dispatch max_plus true 2 no_env serde zmq_multi_publisher memory (some 7) request parts
      (([], []), map (λ q. some q) queues)).1

slices_published :
    dispatch max_plus true 2 no_env serde zmq_multi_publisher memory
      (some 7)
      request
      parts
      (([], []), map (λ q. some q) queues)
    ≡ (ok tt, dispatched)
unfolding dispatch set_job_metadata set_ex publish_loop task_text subject_of multi_publish rank_send
    to_decimal to_decimal_loop parse_uint parse_some_digits parse_digits
slices_published = refl

abbrev stored : memory.State
stored = (store_final_result memory serde no_env (some 9) job (bytes "[]") dispatched.0).1

result_kept :
    store_final_result memory serde no_env (some 9) job (bytes "[]") dispatched.0 ≡ (ok tt, stored)
unfolding store_final_result set_ex update_progress
result_kept = refl

both_arrive :
    Arrived max_plus max_plus-IsExact memory serde no_json little no_env found clock_after 100
      (some 9)
      job
      early_part
      (late_part ∷ [])
      1
unfolding slice_timeout
both_arrive = ((λ j lt. omega arith), arrives)
  where
    arrives : (i : ℕ) → i < 2 → (j : ℕ) × (s : _) × (j ≤ 1) × (read j i ≡ ok (some s))
    arrives zero below = (0, part_stats early_part, omega arith, early_part_found)
    arrives (suc zero) below = (1, part_stats late_part, omega arith, late_part_found 0)
    arrives (suc (suc i)) below = absurd (omega arith)

submit_task-softmax_example :
    submit_task max_plus true 2 no_env serde zmq_multi_publisher memory no_json little none
      (λ s. s)
      found
      clock_after
      100
      (some 7)
      (some 9)
      2
      request
      (([], []), [], map (λ q. some q) queues)
    ≡ some (
      ok (record {
        message = bytes "OK";
        result = softmax max_plus (some (pos 3) ∷ some (pos 1) ∷ some (pos 5) ∷ []);
      }),
      (stored, unregister_job (register_job [] job) job, dispatched.1),
    )
unfolding slice_timeout num_slices softmax
submit_task-softmax_example =
    submit_task-softmax max_plus true 2 no_env max_plus-IsExact serde zmq_multi_publisher memory
      no_json little (λ s. s) found clock_after 100 (some 7) (some 9) none request early_part
      (late_part ∷ []) three_numbers_split (omega arith) (omega arith)
      (
        (omega arith, (finite_level _, (finite_level _, tt))),
        ((omega arith, (finite_level _, tt)), tt),
      )
      (omega arith) tt read_honestly 1 1 2 both_arrive (omega arith) (omega arith) (bytes "[]")
      ([], []) dispatched.0 stored (map (λ q. some q) queues) dispatched.1 [] refl refl
      slices_published result_kept

publish_loop_ranks_example :
    publish_loop max_plus true 2 no_env serde zmq_multi_publisher job
      (bytes "softmax")
      parts
      0
      (running max_plus 2 no_env serde job (bytes "softmax") queues)
    ≡ (
      ok tt,
      running max_plus 2 no_env serde job (bytes "softmax") (
          one_each max_plus 2 no_env serde job
            (bytes "softmax")
            queues
            (messages max_plus 2 no_env serde job (bytes "softmax") true parts 0)),
    )
publish_loop_ranks_example =
    publish_loop_ranks max_plus 2 no_env serde job (bytes "softmax") parts queues (omega arith)
      (omega arith)
