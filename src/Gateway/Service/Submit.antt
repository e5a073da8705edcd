-- ===== src/Gateway/Service/Submit.antt =====
-- gateway-rs/src/service.rs: `submit_task`, over any publisher.
pub mod Dispatch
pub mod EndToEnd
pub mod Ranks
pub mod TwoRanks
pub mod Examples
use distributed_softmax.Prelude.{
  ℕ, zero, suc, ◌+◌, Bool, true, false, not, Option, none, some, List, [], ◌∷◌, ◌++◌, map, length,
  ◌==◌, if◌then◌else◌, Outcome, ok, err, panic, or_panic, from_sum,
}
use distributed_softmax.Prelude.Outcomes
use distributed_softmax.Prelude.Effects.{Effect, ◌>>=◌, pure, call}
use distributed_softmax.Text.{Bytes, bytes, beq, to_decimal}
use distributed_softmax.Floats.{Floats}
use distributed_softmax.Wire.{Endian}
use distributed_softmax.Json.{Parser, text, count, numbers}
use distributed_softmax.Redis.{Redis}
use distributed_softmax.Gateway.Config.{Env}
use distributed_softmax.Gateway.RedisManager.{JobMetadata, Serde, set_job_metadata}
use distributed_softmax.Gateway.SliceNotifier.{Jobs}
use distributed_softmax.Gateway.Publisher.{Publisher}
use distributed_softmax.Gateway.Aggregator.Cpu.{SliceStats}
use distributed_softmax.Gateway.Aggregator.Aggregate.{aggregate}
use distributed_softmax.Gateway.Service.Slices.{Status, invalid_argument, internal, split_vector}

pub record TaskRequest (N : Type 0) : Type 0 where
  pub job_id : Bytes
  pub task : Bytes
  pub vector : List N

pub record TaskResponse (N : Type 0) : Type 0 where
  pub message : Bytes
  pub result : List N

-- `map_err`
abbrev pub map_err {ℓ} : {A : Type ℓ} → (Bytes → Status) → Outcome Bytes A → Outcome Status A
map_err f (ok a) = ok a
map_err f (err e) = err (f e)
map_err f panic = panic

module _ (F : Floats) (nccl_dispatch : Bool) (world_size : ℕ) (env : Env) where
  -- The checks of the request, and the slices.
  unfoldable pub slices_of : TaskRequest F.F32 → Outcome Status (List (List F.F64))
  unfolding split_vector
  slices_of req =
      if not (beq req.task (bytes "softmax"))
      then err (invalid_argument (bytes "only softmax task supported"))
      else let vector = map F.widen req.vector in
        if length vector == 0
        then err (invalid_argument (bytes "empty input vector"))
        else split_vector nccl_dispatch world_size env vector

  module _ (J : Serde F.F64) (P : Publisher) where
    unfoldable pub task_text : (job_id task : Bytes) (slice_id : ℕ) → List F.F64 → Bytes
    task_text job_id task slice_id xs = J.object_to_string (
        (bytes "job_id", text job_id)
        ∷ (bytes "slice_id", count slice_id)
        ∷ (bytes "task", text task)
        ∷ (bytes "data", numbers xs)
        ∷ [])

    unfoldable pub subject_of : ℕ → Bytes
    subject_of slice_id = if nccl_dispatch then to_decimal slice_id else bytes "task_queue"

    -- `for (slice_id, data) in slices.iter().enumerate()`
    unfoldable pub publish_loop :
        (job_id task : Bytes)
        → List (List F.F64)
        → (slice_id : ℕ) → Effect P.State Status (Unit {0})
    unfolding task_text subject_of
    publish_loop job_id task [] slice_id = pure (ok tt)
    publish_loop job_id task (xs ∷ slices) slice_id =
        (λ s.
          let (r, s') =
            call (P.publish (subject_of slice_id) (task_text job_id task slice_id xs)) s in
          (map_err (λ e. internal (bytes "Publish failed: " ++ e)) r, s'))
        >>= λ sent. publish_loop job_id task slices (slice_id + 1)

    module _ (R : Redis) where
      -- Storing the metadata, at the seconds since 1970, and publishing.
      unfoldable pub dispatch :
          (clock : Option ℕ)
          → TaskRequest F.F32
          → List (List F.F64)
          → Effect (R.State × P.State) Status (Unit {0})
      unfolding publish_loop set_job_metadata
      dispatch clock req slices = do
        now ← pure (or_panic clock)
        stored ← (λ (s, p).
            let (r, s') =
              set_job_metadata R J env req.job_id
                (record {
                  job_id = req.job_id;
                  task_type = req.task;
                  total_slices = length slices;
                  created_at = now;
                  status = bytes "submitted";
                })
                s in
            (map_err (λ e. internal (bytes "Failed to store job metadata")) r, (s', p)))
        (λ (s, p). let (r, p') = publish_loop req.job_id req.task slices 0 p in (r, (s, p')))

      -- The response to what `aggregate` returns.
      unfoldable pub respond : Outcome Bytes Bytes → Outcome Status (TaskResponse F.F32)
      respond r =
          Outcomes.◌>>=◌ (map_err (λ e. internal (bytes "Aggregation failed: " ++ e)) r)
            (λ result_str.
              Outcomes.◌>>=◌
                (map_err (λ e. internal (bytes "Failed to parse result: " ++ e))
                  (from_sum (J.numbers_from_str result_str)))
                (λ values. ok (record { message = bytes "OK"; result = map F.narrow values })))

      module _ (parse : Parser F.F64) (e : Endian)
          (gpu : Option (List (SliceStats F) → Outcome Bytes (List F.F32))) where
        -- `others` is what the workers and the other clients do to the server while the gateway waits;
        -- `found`, `now`, `start` and the second clock are those of `aggregate`.
        module _ (others : R.State → R.State) (found : ℕ → ℕ → R.State) (now : ℕ → ℕ) (start : ℕ)
            (clock stored_at : Option ℕ) where
          unfoldable pub wait_and_respond :
              (fuel : ℕ) (job_id : Bytes)
              → List (List F.F64)
              → R.State × Jobs × P.State
              → Option (Outcome Status (TaskResponse F.F32) × (R.State × Jobs × P.State))
          unfolding respond aggregate
          wait_and_respond fuel job_id slices (s, jobs, p) =
              elim (aggregate F R J parse e env gpu found now start stored_at job_id fuel
                (length slices) (others s, jobs)) [
                  | none ↦ none
                  | some (r, (s', jobs')) ↦ some (respond r, (s', jobs', p))
                ]

          -- An early return where the metadata could not be stored or a slice not be published.
          unfoldable pub after_dispatch :
              (fuel : ℕ) (job_id : Bytes)
              → List (List F.F64)
              → Jobs
              → Outcome Status (Unit {0}) × (R.State × P.State)
              → Option (Outcome Status (TaskResponse F.F32) × (R.State × Jobs × P.State))
          unfolding wait_and_respond
          after_dispatch fuel job_id slices jobs (err status, (s, p)) =
              some (err status, (s, jobs, p))
          after_dispatch fuel job_id slices jobs (panic, (s, p)) = some (panic, (s, jobs, p))
          after_dispatch fuel job_id slices jobs (ok sent, (s, p)) =
              wait_and_respond fuel job_id slices (s, jobs, p)

          unfoldable pub submit_task :
              (fuel : ℕ)
              → TaskRequest F.F32
              → R.State × Jobs × P.State
              → Option (Outcome Status (TaskResponse F.F32) × (R.State × Jobs × P.State))
          unfolding slices_of dispatch after_dispatch
          submit_task fuel req (s, jobs, p) = elim (slices_of req) [
            | err status ↦ some (err status, (s, jobs, p))
            | panic ↦ some (panic, (s, jobs, p))
            | ok slices ↦
                after_dispatch fuel req.job_id slices jobs (dispatch clock req slices (s, p))
          ]
