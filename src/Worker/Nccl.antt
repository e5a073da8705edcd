-- ===== src/Worker/Nccl.antt =====
-- worker-rs/src/main.rs: the loop of `run_nccl`, over any `all_reduce_softmax`. What the loop returns is
-- `ok` while it goes on; an error or a panic ends the worker.
pub mod Rounds
pub mod Loop
pub mod Run
pub mod Examples
use distributed_softmax.Prelude.{
  ℕ, suc, Bool, true, false, not, List, [], ◌∷◌, ◌++◌, map, ◌⊎◌, inl, inr, if◌then◌else◌, Outcome,
  ok, err,
}
use distributed_softmax.Prelude.Effects.{Effect, ◌>>=◌, pure}
use distributed_softmax.Text.{Bytes, bytes, beq}
use distributed_softmax.Floats.{Floats}
use distributed_softmax.Redis.{Redis}
use distributed_softmax.Worker.Handler.Encode.{encode_normalized}
use distributed_softmax.Worker.Handler.Task.{TaskMessage, logged_id, write_result}

module _ (F : Floats) (R : Redis) (info_enabled : Bool) where
  open F use {F32, F64, narrow}

  -- From the write to the end of the round.
  unfoldable pub finish_round : TaskMessage F64 → List F32 → Effect R.State Bytes (Unit {0})
  unfolding write_result logged_id
  finish_round msg probs = do
    written ← write_result F R msg.job_id msg.slice_id (encode_normalized F probs)
    shown ← pure (logged_id info_enabled msg.job_id)
    pure (ok tt)

  module _ (parse : Bytes → Bytes ⊎ TaskMessage F64)
      (all_reduce_softmax : List F32 → Outcome Bytes (List F32)) where
    unfoldable pub reduce_round : TaskMessage F64 → Effect R.State Bytes (Unit {0})
    unfolding finish_round
    reduce_round msg = do
      probs ← pure (all_reduce_softmax (map narrow msg.«data»))
      finish_round msg probs

    -- One message. What is no message, or another task, is skipped.
    unfoldable pub nccl_round : Bytes → Effect R.State Bytes (Unit {0})
    unfolding reduce_round
    nccl_round raw = elim (parse raw) [
      | inl e ↦ pure (ok tt)
      | inr msg ↦ if not (beq msg.task (bytes "softmax")) then pure (ok tt) else reduce_round msg
    ]

  -- The loop over what the socket returns: a message, or the text of an error. The reduction of a round
  -- is what the ranks come to in that round.
  unfoldable pub nccl_loop :
      (parse : Bytes → Bytes ⊎ TaskMessage F64)
      → (all_reduce : ℕ → List F32 → Outcome Bytes (List F32)) → (round : ℕ) → List (Bytes ⊎ Bytes)
      → Effect R.State Bytes (Unit {0})
  nccl_loop parse all_reduce round [] = pure (ok tt)
  nccl_loop parse all_reduce round (inl e ∷ frames) = pure (err (bytes "ZMQ recv: " ++ e))
  nccl_loop parse all_reduce round (inr raw ∷ frames) =
      nccl_round parse (all_reduce round) raw >>= λ next.
      nccl_loop parse all_reduce (suc round) frames
