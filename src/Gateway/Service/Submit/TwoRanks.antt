-- ===== src/Gateway/Service/Submit/TwoRanks.antt =====
-- A request for three numbers, with two ranks.
use distributed_softmax.Prelude.{◌≡◌, refl, true, none, some, [], ◌∷◌, flatten, ok, arith, range}
use distributed_softmax.Prelude.Int.{pos, negsuc}
use distributed_softmax.Text.{
  bytes, beq, to_decimal, to_decimal_loop, parse_uint, parse_some_digits, parse_digits,
}
use distributed_softmax.Floats.MaxPlus.{Level, max_plus, max_plus-IsExact}
use distributed_softmax.Wire.{little}
use distributed_softmax.Redis.Memory.{memory}
use distributed_softmax.Worker.Gpu.AllReduce.Examples.{
  calls_work, in_blocks, nothing, first, second, ranks, told, ranks-IsReady, ranks-Agrees,
}
use distributed_softmax.Gateway.RedisManager.{
  Serde, store_final_result, set_ex, update_progress, set_job_metadata,
}
use distributed_softmax.Gateway.RedisManager.Examples.{sample_serde, no_env}
use distributed_softmax.Gateway.SliceNotifier.{register_job, unregister_job}
use distributed_softmax.Gateway.Publisher.{zmq_multi_publisher, multi_publish, rank_send}
use distributed_softmax.Gateway.Aggregator.Cpu.Exact.{softmax}
use distributed_softmax.Gateway.Aggregator.Aggregate.{slice_timeout}
use distributed_softmax.Gateway.Aggregator.Aggregate.Examples.{job, no_json, clock_after}
use distributed_softmax.Gateway.Aggregator.Aggregate.TwoRanks.{
  first_result, second_result, found, ranks_ran, reads_results, results_arrive,
}
use distributed_softmax.Gateway.Service.Slices.{split_vector, even_chunks, even_loop, num_slices}
use distributed_softmax.Gateway.Service.Submit.{
  TaskRequest, slices_of, publish_loop, task_text, subject_of, dispatch, submit_task,
}
use distributed_softmax.Gateway.Service.Submit.Ranks.{submit_task-all_reduce_softmax}

abbrev request : TaskRequest Level
request = record {
  job_id = job;
  task = bytes "softmax";
  vector = some (pos 3) ∷ some (negsuc 4) ∷ some (pos 5) ∷ [];
}

abbrev serde : Serde Level
serde = sample_serde (softmax max_plus (flatten ranks))

abbrev queues : zmq_multi_publisher.State
queues = some [] ∷ some [] ∷ []

split_for_ranks : slices_of max_plus true 2 no_env request ≡ ok ranks
unfolding slices_of beq split_vector even_chunks even_loop range
split_for_ranks = refl

abbrev dispatched : memory.State × zmq_multi_publisher.State
dispatched =
    (dispatch max_plus true 2 no_env serde zmq_multi_publisher memory (some 7) request ranks
      (([], []), queues)).1

slices_published :
    dispatch max_plus true 2 no_env serde zmq_multi_publisher memory
      (some 7)
      request
      ranks
      (([], []), queues)
    ≡ (ok tt, dispatched)
unfolding dispatch set_job_metadata set_ex publish_loop task_text subject_of multi_publish rank_send
    to_decimal to_decimal_loop parse_uint parse_some_digits parse_digits
slices_published = refl

abbrev stored : memory.State
stored = (store_final_result memory serde no_env (some 9) job (bytes "[]") dispatched.0).1

result_kept :
    store_final_result memory serde no_env (some 9) job (bytes "[]") dispatched.0 ≡ (ok tt, stored)
unfolding store_final_result set_ex update_progress
result_kept = refl

submit_task-all_reduce_softmax_example :
    submit_task max_plus true 2 no_env serde zmq_multi_publisher memory no_json little none
      (λ s. s)
      found
      clock_after
      100
      (some 7)
      (some 9)
      2
      request
      (([], []), [], queues)
    ≡ some (
      ok (record {
        message = bytes "OK";
        result = softmax max_plus (some (pos 3) ∷ some (negsuc 4) ∷ some (pos 5) ∷ []);
      }),
      (stored, unregister_job (register_job [] job) job, dispatched.1),
    )
unfolding slice_timeout num_slices softmax
submit_task-all_reduce_softmax_example =
    submit_task-all_reduce_softmax max_plus max_plus-IsExact 2 no_env serde zmq_multi_publisher
      memory no_json little (λ s. s) found clock_after 100 (some 7) (some 9) none nothing calls_work
      in_blocks told request first (second ∷ []) split_for_ranks (omega arith) (omega arith)
      ranks-IsReady ranks-Agrees (first_result ∷ second_result ∷ []) ranks_ran reads_results
      (omega arith) 1 1 2 results_arrive (omega arith) (omega arith) (bytes "[]") ([], [])
      dispatched.0 stored queues dispatched.1 [] refl refl slices_published result_kept
