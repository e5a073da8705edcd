-- ===== src/Gateway/Aggregator/ReadSlice.antt =====
-- gateway-rs/src/aggregator.rs: `read_slice`, from the Redis server on, and what it makes of the writes
-- of a worker.
pub mod Examples
use distributed_softmax.Prelude.{
  Bool, ℕ, ◌<◌, ◌^◌, ◌≡◌, ◌≢◌, refl, ap, sym, subst, ◌∙◌, Option, none, some, List, [], ◌∷◌, length,
  ◌⊎◌, inl, inr, Outcome, ok, panic, length-map, arith, from_sum,
}
use distributed_softmax.Prelude.Outcomes
use distributed_softmax.Text.{Bytes}
use distributed_softmax.Floats.{Floats, IsBitExact}
use distributed_softmax.Wire.{Endian, little}
use distributed_softmax.Json.{Parser}
use distributed_softmax.Redis.{Redis, IsStore}
use distributed_softmax.Worker.Softmax.{PartialStats, softmax_partial}
use distributed_softmax.Worker.Handler.Encode.{encode_partial}
use distributed_softmax.Worker.Handler.Task.{TaskMessage, compute_cpu, worker_key, handle_task}
use distributed_softmax.Worker.Handler.Task.Writes.{handle_task_lem}
use distributed_softmax.Gateway.Config.{slice_key}
use distributed_softmax.Gateway.RedisManager.{get_bytes}
use distributed_softmax.Gateway.Aggregator.Cpu.{SliceStats}
use distributed_softmax.Gateway.Aggregator.Cpu.Exact.{received}
use distributed_softmax.Gateway.Aggregator.Slice.{decode_slice, Result}
use distributed_softmax.Gateway.Aggregator.Slice.RoundTrip.{decode-encode_partial}
use distributed_softmax.Gateway.Aggregator.Slice.Total.{decode_slice-ne-panic}

module _ (F : Floats) (R : Redis) (parse : Parser F.F64) where
  unfoldable pub read_slice : Endian → R.State → Bytes → ℕ → Result (Option (SliceStats F))
  unfolding get_bytes
  read_slice e s job_id idx =
      Outcomes.◌>>=◌ (get_bytes R s (slice_key job_id idx))
        (λ found. elim found [ none ↦ ok none | some raw ↦ decode_slice F e parse idx raw ])

  -- Whatever Redis answers, reading a slice does not panic.
  pub read_slice-ne-panic :
      (e : Endian) (s : R.State) (job_id : Bytes) (idx : ℕ) → read_slice e s job_id idx ≢ panic
  unfolding read_slice
  read_slice-ne-panic e s job_id idx = answered (R.get s (slice_key job_id idx)) refl
    where
      answered :
          (r : Bytes ⊎ Option Bytes)
          → R.get s (slice_key job_id idx) ≡ r
          → read_slice e s job_id idx ≢ panic
      answered (inl x) p = rw p (λ q. cc)
      answered (inr none) p = rw p (λ q. cc)
      answered (inr (some raw)) p = rw p (decode_slice-ne-panic F e parse idx raw)

  -- The gateway and the worker name a slice by the same key.
  pub slice_key-worker_key :
      (job_id : Bytes) (idx : ℕ) → slice_key job_id idx ≡ worker_key job_id idx
  unfolding slice_key worker_key
  slice_key-worker_key job_id idx = refl

  pub read_slice_of_get :
      (e : Endian) (s : R.State) (job_id raw : Bytes) (idx : ℕ)
      → R.get s (slice_key job_id idx) ≡ inr (some raw)
      → read_slice e s job_id idx ≡ decode_slice F e parse idx raw
  unfolding read_slice
  read_slice_of_get e s job_id raw idx h = rw h refl

  -- Two servers with the same bytes under a slice's key are read alike.
  pub read_slice_same :
      (e : Endian) (s t : R.State) (job_id : Bytes) (idx : ℕ)
      → R.get s (slice_key job_id idx) ≡ R.get t (slice_key job_id idx)
      → read_slice e s job_id idx ≡ read_slice e t job_id idx
  unfolding read_slice
  read_slice_same e s t job_id idx h = rw h refl

  length_exp_values : (xs : List F.F64) → length (softmax_partial F xs).exp_values ≡ length xs
  unfolding softmax_partial
  length_exp_values [] = refl
  length_exp_values (x ∷ xs) = length-map _ (x ∷ xs)

  module _ (B : IsBitExact F) (store : IsStore R) (info_enabled : Bool)
      (read_message : Bytes → Bytes ⊎ TaskMessage F.F64) where
    -- Where a worker, on a CPU or a GPU, has done a task of fewer than 2 ^ 32 numbers and has computed
    -- their partial softmax, the gateway finds that under the job's id and the slice's index, on a
    -- little-endian machine.
    pub read_slice-handle_task :
        (compute : List F.F64 → Outcome Bytes (PartialStats F)) (raw : Bytes)
        (msg : TaskMessage F.F64) (s s' : R.State)
        → read_message raw ≡ inr msg
        → length msg.«data» < 2 ^ 32
        → compute msg.«data» ≡ ok (softmax_partial F msg.«data»)
        → handle_task F R info_enabled read_message compute raw s ≡ (ok tt, s')
        → read_slice little s' msg.job_id msg.slice_id
          ≡ ok (some (received F (softmax_partial F msg.«data»)))
    read_slice-handle_task compute raw msg s s' parsed few right done =
        let (checked, (stats, computed, (here, others))) =
          handle_task_lem F R store info_enabled read_message compute raw msg s s' parsed done in
        let same : softmax_partial F msg.«data» ≡ stats = cc (right, computed) in
        read_slice_of_get little s' msg.job_id (encode_partial F (softmax_partial F msg.«data»))
          msg.slice_id
          (rw (slice_key-worker_key msg.job_id msg.slice_id)
            (here ∙ ap (λ (t : PartialStats F). inr (some (encode_partial F t))) (sym same)))
        ∙ decode-encode_partial F B parse msg.slice_id (softmax_partial F msg.«data»)
            (subst (λ (n : ℕ). n < 2 ^ 32) (sym (length_exp_values msg.«data»)) few)
