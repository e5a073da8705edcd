-- ===== src/Worker/Handler/Task.antt =====
-- worker-rs/src/handler.rs: `handle_task` and `write_result`, over any Redis server, any reading of the
-- message by serde_json and any backend that computes the partial softmax.
pub mod Writes
pub mod Panics
pub mod Examples
use distributed_softmax.Prelude.{
  ℕ, ◌<◌, min, Bool, true, false, ◌||◌, not, ◌&&◌, Option, none, some, List, [], ◌∷◌, ◌++◌, ltb,
  leb, ◌==◌, if◌then◌else◌, ◌⊎◌, length, take, get_elem?, Outcome, ok, err, panic, from_sum,
}
use distributed_softmax.Prelude.Effects.{Effect, ◌>>=◌, ◌>>◌, pure, call}
use distributed_softmax.Text.{Bytes, bytes, beq, to_decimal}
use distributed_softmax.Errors.{with_context, in_context}
use distributed_softmax.Floats.{Floats}
use distributed_softmax.Redis.{Redis}
use distributed_softmax.Worker.Softmax.{PartialStats, softmax_partial}
use distributed_softmax.Worker.Handler.Encode.{encode_partial}

pub record TaskMessage (N : Type 0) : Type 0 where
  pub job_id : Bytes
  pub slice_id : ℕ
  pub task : Bytes
  pub «data» : List N

-- `format!("result:{}:{}", job_id, slice_id)`
unfoldable pub worker_key : Bytes → ℕ → Bytes
worker_key job_id slice_id = bytes "result:" ++ (job_id ++ (bytes ":" ++ to_decimal slice_id))

unfoldable pub pub_channel : Bytes → Bytes
pub_channel job_id = bytes "slice_done:" ++ job_id

-- `s.is_char_boundary(i)`: not inside the bytes of one character.
unfoldable pub is_char_boundary : Bytes → ℕ → Bool
is_char_boundary s i = elim (get_elem? s i) [
  | none ↦ i == length s
  | some b ↦ ltb b 128 || leb 192 b
]

-- `&job_id[..job_id.len().min(8)]`, which is computed only where the level `info` is logged.
unfoldable pub logged_id : (info_enabled : Bool) → Bytes → Outcome Bytes Bytes
unfolding is_char_boundary
logged_id false job_id = ok []
logged_id true job_id =
    let n = min (length job_id) 8 in if is_char_boundary job_id n then ok (take n job_id) else panic

module _ (F : Floats) where
  -- `compute_partial` without the `cuda` feature.
  unfoldable pub compute_cpu : List F.F64 → Outcome Bytes (PartialStats F)
  compute_cpu xs = ok (softmax_partial F xs)

  -- The checks of `handle_task` on the message.
  unfoldable pub check_task : TaskMessage F.F64 → Outcome Bytes (Unit {0})
  check_task msg =
      if not (beq msg.task (bytes "softmax"))
      then err (
          bytes "unknown task '"
          ++ (msg.task
              ++ (bytes "' " ++ (0xE2 ∷ 0x80 ∷ 0x94 ∷ bytes " only 'softmax' is supported"))))
      else if length msg.«data» == 0
      then err (
          bytes "empty data slice for job "
          ++ (msg.job_id ++ (bytes " slice " ++ to_decimal msg.slice_id)))
      else ok tt

  module _ (R : Redis) where
    unfoldable pub write_result : Bytes → ℕ → Bytes → Effect R.State Bytes (Unit {0})
    unfolding worker_key pub_channel
    write_result job_id slice_id payload = do
      stored ←
          in_context (bytes "Redis SET " ++ worker_key job_id slice_id)
            (call (R.set (worker_key job_id slice_id) payload))
      in_context (bytes "Redis PUBLISH " ++ pub_channel job_id)
          (call (R.publish (pub_channel job_id) (to_decimal slice_id)))

    -- The last line logs, with the first bytes of the job's id.
    unfoldable pub handle_task :
        (info_enabled : Bool)
        → (parse : Bytes → Bytes ⊎ TaskMessage F.F64)
        → (compute : List F.F64 → Outcome Bytes (PartialStats F)) → Bytes
        → Effect R.State Bytes (Unit {0})
    unfolding write_result check_task logged_id
    handle_task info_enabled parse compute raw = do
      msg ← pure (with_context (bytes "deserialize task message") (from_sum (parse raw)))
      checked ← pure (check_task msg)
      stats ← pure (compute msg.«data»)
      written ← write_result msg.job_id msg.slice_id (encode_partial F stats)
      shown ← pure (logged_id info_enabled msg.job_id)
      pure (ok tt)
