-- ===== src/Gateway/RedisManager/Examples.antt =====
-- The gateway's Redis operations on a server that holds nothing at first.
use distributed_softmax.Prelude.{ℕ, ◌≡◌, ◌≢◌, refl, none, some, List, [], inr, ok}
use distributed_softmax.Text.{Bytes, bytes}
use distributed_softmax.Text.Utf8.{is_utf8}
use distributed_softmax.Redis.Memory.{memory, memory-IsStore}
use distributed_softmax.Gateway.Config.{Env, result_key, metadata_key, slice_key}
use distributed_softmax.Gateway.RedisManager.{
  JobMetadata, Serde, set_ex, get_str, set_job_metadata, get_job_metadata, store_final_result,
  update_progress,
}
use distributed_softmax.Gateway.RedisManager.Keeps.{get-set_job_metadata, store_final_result_lem}

abbrev pub job : Bytes
job = bytes "j1"

abbrev pub job_metadata : JobMetadata
job_metadata = record {
  job_id = job;
  task_type = bytes "softmax";
  total_slices = 2;
  created_at = 1700000000;
  status = bytes "submitted";
}

-- serde_json at one text for each type.
abbrev pub sample_serde : {N : Type 0} → List N → Serde N
sample_serde xs = record {
  metadata_to_string = λ m. inr (bytes "{}");
  metadata_from_str = λ t. inr job_metadata;
  numbers_to_string = λ t. inr (bytes "[]");
  numbers_from_str = λ t. inr xs;
  object_to_string = λ fields. bytes "{\"job_id\":\"j1\"}";
}

abbrev pub no_env : Env
no_env name = none

abbrev pub serde : Serde ℕ
serde = sample_serde []

abbrev pub stored_metadata : memory.State
stored_metadata = (set_job_metadata memory serde no_env job job_metadata ([], [])).1

metadata_stored :
    set_job_metadata memory serde no_env job job_metadata ([], []) ≡ (ok tt, stored_metadata)
unfolding set_job_metadata set_ex
metadata_stored = refl

get-set_job_metadata_example :
    (get_job_metadata memory serde no_env stored_metadata job ≡ ok (some job_metadata))
    × ((j : Bytes) → j ≢ metadata_key job → memory.get stored_metadata j ≡ memory.get ([], []) j)
unfolding is_utf8
get-set_job_metadata_example =
    get-set_job_metadata memory memory-IsStore serde no_env ([], []) stored_metadata job
      (bytes "{}") job_metadata refl refl refl metadata_stored

abbrev pub stored_result : memory.State
stored_result = (store_final_result memory serde no_env (some 9) job (bytes "[1.0]") ([], [])).1

result_stored :
    store_final_result memory serde no_env (some 9) job (bytes "[1.0]") ([], [])
    ≡ (ok tt, stored_result)
unfolding store_final_result update_progress set_ex
result_stored = refl

store_final_result_lem_example :
    (get_str memory stored_result (result_key job) ≡ ok (some (bytes "[1.0]")))
    × ((j : Bytes)
        → memory.get stored_result (metadata_key j) ≡ memory.get ([], []) (metadata_key j))
    × ((j : Bytes) (i : ℕ)
        → slice_key j i ≢ result_key job
        → memory.get stored_result (slice_key j i) ≡ memory.get ([], []) (slice_key j i))
unfolding is_utf8
store_final_result_lem_example =
    store_final_result_lem memory memory-IsStore serde no_env ([], []) stored_result (some 9) job
      (bytes "[1.0]") refl result_stored
