-- ===== src/Gateway/Service/Results/Examples.antt =====
-- A job of two slices: its result stored, and one of its slices there.
use distributed_softmax.Prelude.{
  length, ℕ, ◌<◌, ◌≡◌, ◌↔◌, ◌⊎◌, refl, false, none, some, [], ◌∷◌, ok,
}
use distributed_softmax.Prelude.Int.{pos}
use distributed_softmax.Prelude.Int.{as_i32}
use distributed_softmax.Text.{bytes, beq, to_decimal, to_decimal_loop}
use distributed_softmax.Text.Utf8.{is_utf8}
use distributed_softmax.Floats.MaxPlus.{Level, max_plus}
use distributed_softmax.Redis.Memory.{memory, memory-IsStore}
use distributed_softmax.Gateway.Config.{result_key, metadata_key, slice_key}
use distributed_softmax.Gateway.RedisManager.Progress.{existing}
use distributed_softmax.Gateway.RedisManager.{
  Serde, exists, get_str, get_job_metadata, store_final_result, set_ex, update_progress,
}
use distributed_softmax.Gateway.RedisManager.Examples.{job, job_metadata, sample_serde, no_env}
use distributed_softmax.Gateway.Service.Results.{Response, get_result}
use distributed_softmax.Gateway.Service.Results.Answers.{
  get_result-store_final_result, get_result_progress,
}

abbrev serde : Serde Level
serde = sample_serde (some (pos 0) ∷ [])

abbrev half_done : memory.State
half_done = ((slice_key job 1, bytes "x", none) ∷ (metadata_key job, bytes "{}", none) ∷ [], [])

abbrev stored : memory.State
stored = (store_final_result memory serde no_env (some 9) job (bytes "[0.0]") half_done).1

result_stored :
    store_final_result memory serde no_env (some 9) job (bytes "[0.0]") half_done ≡ (ok tt, stored)
unfolding store_final_result update_progress set_ex
result_stored = refl

get_result-store_final_result_example :
    (answer : Response max_plus serde no_env memory stored job) × (get_result max_plus serde no_env
        memory stored job
      ≡ ok answer)
    × (answer.status ≡ bytes "ready")
    × (answer.result ≡ some (pos 0) ∷ [])
    × (answer.completed_slices ≡ as_i32 2)
    × (answer.total_slices ≡ as_i32 2)
unfolding is_utf8 slice_key metadata_key beq
get_result-store_final_result_example =
    get_result-store_final_result max_plus serde no_env memory memory-IsStore half_done stored
      (some 9) job (bytes "[0.0]") (bytes "{}") job_metadata (some (pos 0) ∷ []) refl refl refl refl
      refl result_stored

metadata_found : get_job_metadata memory serde no_env half_done job ≡ ok (some job_metadata)
unfolding get_job_metadata get_str slice_key metadata_key beq is_utf8 to_decimal to_decimal_loop
metadata_found = refl

result_missing : get_str memory half_done (result_key job) ≡ ok none
unfolding get_str slice_key metadata_key result_key beq to_decimal to_decimal_loop
result_missing = refl

get_result_progress_example :
    (answer : Response max_plus serde no_env memory half_done job) × (get_result max_plus serde
        no_env memory half_done job
      ≡ ok answer)
    × ((answer.status ≡ bytes "pending")
        ↔ ((i : ℕ) → i < 2 → exists memory half_done (slice_key job i) ≡ false))
    × ((answer.status ≡ bytes "pending") ⊎ (answer.status ≡ bytes "running"))
    × (answer.result ≡ [])
    × (answer.completed_slices ≡ as_i32 (length (existing memory half_done job 2)))
    × (answer.total_slices ≡ as_i32 2)
get_result_progress_example =
    get_result_progress max_plus serde no_env memory half_done job job_metadata metadata_found
      result_missing

-- The one that exists is the second.
one_exists : existing memory half_done job 2 ≡ 1 ∷ []
unfolding exists slice_key metadata_key beq to_decimal to_decimal_loop
one_exists = refl
