-- ===== src/Gateway/Service/Results.antt =====
-- gateway-rs/src/service.rs: `get_result`.
pub mod Answers
pub mod Examples
use distributed_softmax.Prelude.{
  ℕ, ◌+◌, ◌-◌, ◌%◌, ◌^◌, none, some, List, [], ◌∷◌, ◌++◌, map, ltb, ◌==◌, if◌then◌else◌, Outcome,
  ok, err, panic, inl, inr,
}
use distributed_softmax.Prelude.Int.{as_i32, ℤ, pos, negsuc, ltb_ℤ}
use distributed_softmax.Text.{Bytes, bytes, to_decimal}
use distributed_softmax.Floats.{Floats}
use distributed_softmax.Redis.{Redis}
use distributed_softmax.Gateway.Config.{Env, result_key}
use distributed_softmax.Gateway.RedisManager.{
  Serde, ttl, get_str, get_job_metadata, get_completed_slice_count,
}
use distributed_softmax.Gateway.Service.Slices.{Status, internal}

pub record ResultResponse (N : Type 0) : Type 0 where
  pub job_id : Bytes
  pub status : Bytes
  pub result : List N
  pub message : Bytes
  pub completed_slices : ℤ
  pub total_slices : ℤ

abbrev pub decimal_ℤ : ℤ → Bytes
decimal_ℤ (pos n) = to_decimal n
decimal_ℤ (negsuc n) = b'-' ∷ to_decimal (n + 1)

module _ (F : Floats) (J : Serde F.F64) (env : Env) (R : Redis) (s : R.State) (job_id : Bytes) where
  abbrev pub Response : Type 0
  Response = ResultResponse F.F32

  unfoldable pub not_found : Response
  not_found = record {
    job_id = job_id;
    status = bytes "not_found";
    result = [];
    message = bytes "Job not found or expired";
    completed_slices = pos 0;
    total_slices = pos 0;
  }

  unfoldable pub ready_message : Bytes
  unfolding ttl
  ready_message =
      let left = ttl R s (result_key job_id) in
      if ltb_ℤ (pos 0) left
      then bytes "Result ready (expires in " ++ (decimal_ℤ left ++ bytes " seconds)")
      else bytes "Result ready"

  -- The answer where the final result is there.
  unfoldable pub finished : ℕ → Bytes → Response
  unfolding ready_message
  finished total raw = elim (J.numbers_from_str raw) [
    | inr values ↦ record {
      job_id = job_id;
      status = bytes "ready";
      result = map F.narrow values;
      message = ready_message;
      completed_slices = as_i32 total;
      total_slices = as_i32 total;
    }
    | inl e ↦ record {
      job_id = job_id;
      status = bytes "failed";
      result = [];
      message = bytes "Failed to parse result: " ++ e;
      completed_slices = as_i32 total;
      total_slices = as_i32 total;
    }
  ]

  unfoldable pub progress_status : (completed : ℕ) → Bytes
  progress_status completed = if completed == 0 then bytes "pending" else bytes "running"

  unfoldable pub progress_message : (completed total : ℕ) → Bytes
  progress_message completed total =
      if completed == 0
      then bytes "Job submitted, waiting for processing to start"
      else if ltb completed total
      then bytes "Processing in progress: "
        ++ (to_decimal completed ++ (bytes "/" ++ (to_decimal total ++ bytes " slices completed")))
      else bytes "All slices completed, aggregating results..."

  -- The answer where it is not.
  unfoldable pub progress : ℕ → Response
  unfolding progress_status progress_message get_completed_slice_count
  progress total =
      let completed = get_completed_slice_count R s job_id total in
      record {
        job_id = job_id;
        status = progress_status completed;
        result = [];
        message = progress_message completed total;
        completed_slices = as_i32 completed;
        total_slices = as_i32 total;
      }

  -- The answer for a job whose metadata are there.
  unfoldable pub known_job : ℕ → Outcome Status Response
  unfolding finished progress get_str
  known_job total = elim (get_str R s (result_key job_id)) [
    | ok found ↦ elim found [ none ↦ ok (progress total) | some raw ↦ ok (finished total raw) ]
    | err e ↦ ok (progress total)
    | panic ↦ panic
  ]

  unfoldable pub get_result : Outcome Status Response
  unfolding known_job not_found get_job_metadata
  get_result = elim (get_job_metadata R J env s job_id) [
    | ok found ↦ elim found [
      | none ↦ ok not_found
      | some metadata ↦ known_job metadata.total_slices
    ]
    | err e ↦ err (internal (bytes "Redis error: " ++ e))
    | panic ↦ panic
  ]
