-- ===== src/Worker/Gpu/Rendezvous.antt =====
-- worker-rs/src/gpu_worker.rs: `nccl_rendezvous`, by which the ranks agree on an id over Redis and wait
-- for one another. What a rank finds in Redis at each attempt is any server, as other clients change it.
pub mod Barrier
pub mod Meets
pub mod Returns
pub mod Examples
use distributed_softmax.Prelude.{
  ℕ, zero, suc, ◌≡◌, ◌⊎◌, Option, none, some, List, ◌++◌, length, ◌==◌, if◌then◌else◌, Outcome, ok,
  err, from_sum, or_fail,
}
use distributed_softmax.Prelude.Outcomes
use distributed_softmax.Prelude.Effects.{Effect, ◌>>=◌, ◌>>◌, pure, call}
use distributed_softmax.Errors.{in_context, with_context, with_prefix}
use distributed_softmax.Text.{Bytes, bytes, to_decimal}
use distributed_softmax.Redis.{Redis}

abbrev pub nccl_uid_key : Bytes
nccl_uid_key = bytes "nccl_uid"

abbrev pub nccl_uid_ttl : ℕ
nccl_uid_ttl = 60

unfoldable pub ready_key : ℕ → Bytes
ready_key r = bytes "nccl_ready:" ++ to_decimal r

-- `0..200`, in both loops.
abbrev pub attempts : ℕ
attempts = 200

module _ (R : Redis) where
  open R use {State}

  -- The attempts that are left, and the number of this one.
  unfoldable pub wait_uid : (found : ℕ → State) (left attempt : ℕ) → Outcome Bytes (Option Bytes)
  wait_uid found zero attempt = ok none
  wait_uid found (suc left) attempt =
      let later = wait_uid found left (suc attempt) in
      Outcomes.◌>>=◌
        (with_context (bytes "Redis GET nccl_uid") (from_sum (R.get (found attempt) nccl_uid_key)))
        (λ answer. elim answer [ none ↦ later | some raw ↦ ok (some raw) ])

  unfoldable pub peer_id : (found : ℕ → State) (rank : ℕ) → Outcome Bytes Bytes
  peer_id found rank = Outcomes.◌>>=◌ (wait_uid found attempts 0) (λ uid.
      or_fail uid (bytes "rank " ++ (to_decimal rank ++ bytes ": timed out waiting for NCCL UID")))

  -- The ranks from `r` on.
  unfoldable pub count_ready : (found : ℕ → State) (left r ready : ℕ) → Outcome Bytes ℕ
  count_ready found zero r ready = ok ready
  count_ready found (suc left) r ready =
      Outcomes.◌>>=◌
        (with_context (bytes "Redis GET nccl_ready")
          (from_sum (R.get_string (found r) (ready_key r))))
        (λ v. count_ready found left (suc r) (elim v [ none ↦ ready | some flag ↦ suc ready ]))

  module _ (world_size rank : ℕ) where
    unfoldable pub wait_ready :
        (found : ℕ → ℕ → State) (left attempt : ℕ) → Outcome Bytes (Unit {0})
    wait_ready found zero attempt = ok tt
    wait_ready found (suc left) attempt =
        let later = wait_ready found left (suc attempt) in
        Outcomes.◌>>=◌ (count_ready (found attempt) world_size 0 0) (λ ready.
          if ready == world_size
          then ok tt
          else if attempt == 199
          then err (bytes "rank " ++ (to_decimal rank ++ bytes ": not all ranks ready in time"))
          else later)

    -- `new_id` is what `Id::new` returns, `others` what other clients do until the rank says that it is
    -- ready.
    module _ (new_id : Bytes ⊎ Bytes) (others : State → State) (uid_found : ℕ → State)
        (ready_found : ℕ → ℕ → State) where
      unfoldable pub publish_id : Effect State Bytes Bytes
      publish_id = do
        id ← pure (with_prefix (bytes "NCCL Id::new: ") (from_sum new_id))
        in_context (bytes "Redis SET nccl_uid") (call (R.set_ex nccl_uid_key id nccl_uid_ttl))
        pure (ok id)

      unfoldable pub obtain_id : Effect State Bytes Bytes
      obtain_id = if rank == 0 then publish_id else pure (peer_id uid_found rank)

      unfoldable pub check_id : Bytes → Outcome Bytes Bytes
      check_id id = if length id == 128 then ok id else err (bytes "NCCL UID must be 128 bytes")

      abbrev meanwhile : Effect State Bytes (Unit {0})
      meanwhile s = (ok tt, others s)

      -- From the rank's mark on.
      unfoldable pub join : Bytes → Effect State Bytes Bytes
      join id = do
        meanwhile
        in_context (bytes "Redis SET nccl_ready")
            (call (R.set_ex (ready_key rank) (bytes "1") nccl_uid_ttl))
        pure (wait_ready ready_found attempts 0)
        pure (check_id id)

      unfoldable pub nccl_rendezvous : Effect State Bytes Bytes
      nccl_rendezvous = obtain_id >>= join
