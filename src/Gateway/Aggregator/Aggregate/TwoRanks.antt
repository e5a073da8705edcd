-- ===== src/Gateway/Aggregator/Aggregate/TwoRanks.antt =====
-- Two ranks, of which the second writes its slice in the second round.
use distributed_softmax.Prelude.{
  ℕ, zero, suc, ◌<◌, ◌≤◌, ◌≡◌, refl, none, some, Option, List, [], ◌∷◌, map, ok, arith, Outcome,
  range,
}
use distributed_softmax.Prelude.Int.{pos, negsuc, ◌-ℤ◌}
use distributed_softmax.Text.{Bytes, bytes, beq, to_decimal, to_decimal_loop}
use distributed_softmax.Floats.MaxPlus.{Level, max_plus, max_plus-IsExact}
use distributed_softmax.Floats.Singles.{maximum32, sum32}
use distributed_softmax.Cuda.{write_all, num_blocks, reduce_block, reduce_loop, round, thread_step}
use distributed_softmax.Wire.{little, from_le_bytes, from_ne_bytes, to_le_bytes}
use distributed_softmax.Redis.Memory.{memory}
use distributed_softmax.Worker.Handler.Encode.{encode_normalized, encode_count, encode_values}
use distributed_softmax.Worker.Gpu.AllReduce.{all_reduce_softmax}
use distributed_softmax.Worker.Gpu.Kernels.{
  device_max, device_exp, device_sum, device_normalize, run_normalize_f32,
  run_exp_and_block_sum_f32, run_block_max_f32,
}
use distributed_softmax.Worker.Gpu.AllReduce.Examples.{
  calls_work, in_blocks, nothing, first, second, ranks, told, ranks-IsReady, ranks-Agrees,
}
use distributed_softmax.Gateway.Config.{slice_key}
use distributed_softmax.Gateway.RedisManager.{
  Serde, store_final_result, set_ex, update_progress, get_bytes,
}
use distributed_softmax.Gateway.RedisManager.Examples.{sample_serde, no_env}
use distributed_softmax.Gateway.SliceNotifier.{register_job, unregister_job}
use distributed_softmax.Gateway.Aggregator.Slice.{decode_slice, read_normalized, value_loop, field}
use distributed_softmax.Gateway.Aggregator.Cpu.{SliceStats}
use distributed_softmax.Gateway.Aggregator.ReadSlice.{read_slice}
use distributed_softmax.Gateway.Aggregator.Aggregate.{slice_timeout, aggregate}
use distributed_softmax.Gateway.Aggregator.Aggregate.Arrived.{ReadsOnly, AllArrive}
use distributed_softmax.Gateway.Aggregator.Aggregate.Examples.{job, no_json, clock_after}
use distributed_softmax.Gateway.Aggregator.Aggregate.Ranks.{
  normalized, aggregate-all_reduce_softmax,
}

abbrev pub first_result : List Level
first_result = some (negsuc 1) ∷ some (negsuc 9) ∷ []

abbrev pub second_result : List Level
second_result = some (pos 0) ∷ []

pub ranks_ran :
    map
      (λ ys. all_reduce_softmax max_plus (calls_work ys) (in_blocks ys) nothing (told ys) ys)
      ranks
    ≡ map ok (first_result ∷ second_result ∷ [])
unfolding all_reduce_softmax device_max device_exp device_sum device_normalize run_normalize_f32
    write_all num_blocks run_exp_and_block_sum_f32 maximum32 run_block_max_f32 reduce_block
    reduce_loop round thread_step sum32 ◌-ℤ◌
ranks_ran = refl

abbrev serde : Serde Level
serde = sample_serde []

abbrev slice_entry : ℕ → List Level → Bytes × Bytes × Option ℕ
slice_entry i ps = (slice_key job i, encode_normalized max_plus ps, none)

abbrev pub found : ℕ → ℕ → memory.State
found zero i = (slice_entry 0 first_result ∷ [], [])
found (suc k) i = (slice_entry 1 second_result ∷ slice_entry 0 first_result ∷ [], [])

abbrev read : ℕ → ℕ → Outcome Bytes (Option (SliceStats max_plus))
read k i = read_slice max_plus memory no_json little (found k i) job i

first_found : read 0 0 ≡ ok (some (normalized max_plus first_result))
unfolding read_slice get_bytes slice_key to_decimal to_decimal_loop beq decode_slice read_normalized
    value_loop field range from_ne_bytes from_le_bytes to_le_bytes encode_normalized encode_count
    encode_values
first_found = refl

first_later : (k : ℕ) → read (suc k) 0 ≡ ok (some (normalized max_plus first_result))
unfolding read_slice get_bytes slice_key to_decimal to_decimal_loop beq decode_slice read_normalized
    value_loop field range from_ne_bytes from_le_bytes to_le_bytes encode_normalized encode_count
    encode_values
first_later k = refl

second_missing : read 0 1 ≡ ok none
unfolding read_slice get_bytes slice_key to_decimal to_decimal_loop beq
second_missing = refl

second_found : (k : ℕ) → read (suc k) 1 ≡ ok (some (normalized max_plus second_result))
unfolding read_slice get_bytes slice_key to_decimal to_decimal_loop beq decode_slice read_normalized
    value_loop field range from_ne_bytes from_le_bytes to_le_bytes encode_normalized encode_count
    encode_values
second_found k = refl

pub reads_results :
    ReadsOnly max_plus memory serde no_json little no_env found clock_after 100
      (some 9)
      job
      (normalized max_plus)
      (first_result ∷ second_result ∷ [])
reads_results zero zero p s own was_read = cc (first_found, own, was_read)
reads_results (suc k) zero p s own was_read = cc (first_later k, own, was_read)
reads_results zero (suc zero) p s own was_read = absurd (cc (second_missing, was_read))
reads_results (suc k) (suc zero) p s own was_read = cc (second_found k, own, was_read)
reads_results k (suc (suc i)) p s own was_read = absurd (cc own)

pub results_arrive :
    AllArrive max_plus memory serde no_json little no_env found clock_after 100
      (some 9)
      job
      (normalized max_plus)
      (first_result ∷ second_result ∷ [])
      1
unfolding slice_timeout
results_arrive = ((λ j lt. omega arith), arrives)
  where
    arrives :
        (i : ℕ) → i < 2 → (j : ℕ) × (s : SliceStats max_plus) × (j ≤ 1) × (read j i ≡ ok (some s))
    arrives zero below = (0, normalized max_plus first_result, omega arith, first_found)
    arrives (suc zero) below = (1, normalized max_plus second_result, omega arith, second_found 0)
    arrives (suc (suc i)) below = absurd (omega arith)

abbrev stored : memory.State
stored = (store_final_result memory serde no_env (some 9) job (bytes "[]") (found 1 0)).1

result_stored :
    store_final_result memory serde no_env (some 9) job (bytes "[]") (found 1 0) ≡ (ok tt, stored)
unfolding store_final_result set_ex update_progress
result_stored = refl

aggregate-all_reduce_softmax_example :
    aggregate max_plus memory serde no_json little no_env none found clock_after 100
      (some 9)
      job
      2
      2
      (found 1 0, [])
    ≡ some (ok (bytes "[]"), (stored, unregister_job (register_job [] job) job))
unfolding slice_timeout
aggregate-all_reduce_softmax_example =
    aggregate-all_reduce_softmax max_plus memory serde no_json little no_env none max_plus-IsExact
      nothing calls_work in_blocks told found clock_after 100 (some 9) job first (second ∷ [])
      ranks-IsReady ranks-Agrees (first_result ∷ second_result ∷ []) ranks_ran reads_results
      (omega arith) 1 1 2 results_arrive (omega arith) (omega arith) (bytes "[]") (found 1 0) stored
      [] refl result_stored
