-- ===== src/Gateway/Service/Results/Answers.antt =====
-- What a client is told of its job.
use distributed_softmax.Prelude.{
  ℕ, ◌<◌, ◌≡◌, ◌≢◌, refl, ap, ◌∙◌, ◌↔◌, true, false, Bool-cases, ◌==◌, Option, none, some, List, [],
  ◌∷◌, map, length, ◌⊎◌, inl, inr, ok, panic, from_sum, arith,
}
use distributed_softmax.Prelude.Int.{as_i32}
use distributed_softmax.Text.{Bytes, bytes}
use distributed_softmax.Text.Utf8.{is_utf8}
use distributed_softmax.Floats.{Floats}
use distributed_softmax.Redis.{Redis, IsStore}
use distributed_softmax.Gateway.Config.{Env, result_key, metadata_key, slice_key}
use distributed_softmax.Gateway.RedisManager.{
  JobMetadata, Serde, exists, get_str, get_job_metadata, get_completed_slice_count,
  store_final_result,
}
use distributed_softmax.Gateway.RedisManager.Keeps.{get_str_of_get, store_final_result_lem}
use distributed_softmax.Gateway.RedisManager.Progress.{
  existing, get_completed_slice_count_lem, get_completed_slice_count-existing,
}
use distributed_softmax.Gateway.Service.Results.{
  Response, finished, progress, progress_status, known_job, get_result,
}

abbrev first_code : Bytes → ℕ
first_code [] = 0
first_code (c ∷ s) = c

running-ne-pending : bytes "running" ≢ bytes "pending"
running-ne-pending e = absurd (omega (arith, ap first_code e))

module _ (F : Floats) (J : Serde F.F64) (env : Env) (R : Redis) where
  open R use {State}

  get_str-ne-panic : (s : State) (key : Bytes) → get_str R s key ≢ panic
  unfolding get_str
  get_str-ne-panic s key = sum-ne-panic (R.get_string s key)
    where
      sum-ne-panic : (r : Bytes ⊎ Option Bytes) → from_sum r ≢ panic
      sum-ne-panic (inl e) = λ p. cc
      sum-ne-panic (inr a) = λ p. cc

  -- A job whose result was stored last is ready: the answer has the stored numbers, as f32, and counts
  -- all slices as completed. Its metadata were there and are text that serde_json reads.
  pub get_result-store_final_result :
      IsStore R
      → (s s' : State) (clock : Option ℕ) (job_id json raw : Bytes) (meta : JobMetadata)
        (values : List F.F64)
      → R.get s (metadata_key job_id) ≡ inr (some raw)
      → is_utf8 raw ≡ true
      → J.metadata_from_str raw ≡ inr meta
      → is_utf8 json ≡ true
      → J.numbers_from_str json ≡ inr values
      → store_final_result R J env clock job_id json s ≡ (ok tt, s')
      → (answer : Response F J env R s' job_id) × (get_result F J env R s' job_id ≡ ok answer)
        × (answer.status ≡ bytes "ready")
        × (answer.result ≡ map F.narrow values)
        × (answer.completed_slices ≡ as_i32 meta.total_slices)
        × (answer.total_slices ≡ as_i32 meta.total_slices)
  unfolding get_result known_job finished get_job_metadata
  get_result-store_final_result store s s' clock job_id json raw meta values here text read
        json_text parsed done =
      let (own, kept, _) =
        store_final_result_lem R store J env s s' clock job_id json json_text done in
      let found = get_str_of_get R store s' (metadata_key job_id) raw (kept job_id ∙ here) text in
      (
        finished F J env R s' job_id meta.total_slices json,
        rw (found, read, own, get_job_metadata, known_job, get_result) refl,
        rw (parsed, finished) refl,
        rw (parsed, finished) refl,
        rw (parsed, finished) refl,
        rw (parsed, finished) refl,
      )

  status_lem :
      (s : State) (job_id : Bytes) (n : ℕ)
      → (progress_status F J env R s job_id n ≡ bytes "pending" → n ≡ 0)
        × (n ≡ 0 → progress_status F J env R s job_id n ≡ bytes "pending")
        × ((progress_status F J env R s job_id n ≡ bytes "pending")
            ⊎ (progress_status F J env R s job_id n ≡ bytes "running"))
  unfolding progress_status
  status_lem s job_id n = elim (Bool-cases (n == 0)) [
    | inl e ↦ rw (e, progress_status) ((λ q. ground arith), (λ q. refl), inl refl)
    | inr e ↦
        rw (e, progress_status)
          ((λ q. absurd (running-ne-pending q)), (λ q. absurd (ground arith)), inr refl)
  ]

  -- A job whose metadata are there and whose result is not is pending exactly while the server says of
  -- none of its slices that it exists, and running otherwise; the answer has no numbers, and counts the
  -- slices of which the server says that they exist, each once, among all slices.
  pub get_result_progress :
      (s : State) (job_id : Bytes) (meta : JobMetadata)
      → get_job_metadata R J env s job_id ≡ ok (some meta)
      → get_str R s (result_key job_id) ≡ ok none
      → (answer : Response F J env R s job_id) × (get_result F J env R s job_id ≡ ok answer)
        × ((answer.status ≡ bytes "pending")
            ↔ ((i : ℕ) → i < meta.total_slices → exists R s (slice_key job_id i) ≡ false))
        × ((answer.status ≡ bytes "pending") ⊎ (answer.status ≡ bytes "running"))
        × (answer.result ≡ [])
        × (answer.completed_slices ≡ as_i32 (length (existing R s job_id meta.total_slices)))
        × (answer.total_slices ≡ as_i32 meta.total_slices)
  unfolding get_result known_job progress
  get_result_progress s job_id meta there missing =
      let (bound, all, (some_of_zero, zero_of_none)) =
        get_completed_slice_count_lem R s job_id meta.total_slices in
      let (pending_zero, zero_pending, either) =
        status_lem s job_id (get_completed_slice_count R s job_id meta.total_slices) in
      (
        progress F J env R s job_id meta.total_slices,
        rw (there, missing, known_job, get_result) refl,
        (λ e. some_of_zero (pending_zero e), λ none_there. zero_pending (zero_of_none none_there)),
        either,
        refl,
        ap as_i32 (get_completed_slice_count-existing R s job_id meta.total_slices),
        refl,
      )
