-- ===== src/Worker/Nccl/Rounds.antt =====
-- What a round leaves in Redis, and what the gateway reads of it.
use distributed_softmax.Prelude.{
  ◌<◌, ◌^◌, ◌≡◌, ◌≢◌, refl, sym, ap, ◌∙◌, Bool, true, arith, length-map, some, List, map, length,
  ◌⊎◌, inl, inr, Outcome, ok, Bool-cases,
}
use distributed_softmax.Prelude.Effects.{◌>>=◌, pure, bind_ok, pure_ok}
use distributed_softmax.Text.{Bytes, bytes, beq}
use distributed_softmax.Text.Separator.{beq_apart, beq_iff}
use distributed_softmax.Floats.{Floats, IsBitExact}
use distributed_softmax.Wire.{little}
use distributed_softmax.Json.{Parser}
use distributed_softmax.Redis.{Redis, IsStore}
use distributed_softmax.Worker.Handler.Encode.{encode_normalized}
use distributed_softmax.Worker.Handler.Task.{TaskMessage, logged_id, write_result, worker_key}
use distributed_softmax.Worker.Handler.Task.Writes.{Written, write_result_ok}
use distributed_softmax.Worker.Nccl.{finish_round, reduce_round, nccl_round}
use distributed_softmax.Gateway.Aggregator.ReadSlice.{
  read_slice, read_slice_of_get, slice_key-worker_key,
}
use distributed_softmax.Gateway.Aggregator.Slice.RoundTrip.{decode-encode_normalized}

inr_eq {ℓ} : {A : Type ℓ} (a b : A) → ◌≡◌ {A = Bytes ⊎ A} (inr a) (inr b) → a ≡ b
inr_eq a b h = cc h

module _ (F : Floats) (R : Redis) (store : IsStore R) (info_enabled : Bool) where
  open R use {State}
  open F use {F32, F64, narrow}

  finish_round_ok :
      (msg : TaskMessage F64) (probs : List F32) (s s' : State)
      → finish_round F R info_enabled msg probs s ≡ (ok tt, s')
      → Written F R store msg.job_id msg.slice_id (encode_normalized F probs) s s'
  unfolding finish_round
  finish_round_ok msg probs s s' h =
      let (u, t, written, rest) =
        bind_ok (write_result F R msg.job_id msg.slice_id (encode_normalized F probs))
          (λ w. pure (logged_id info_enabled msg.job_id) >>= λ shown. pure (ok tt)) s s' tt h in
      let (v, t', shown, last) =
        bind_ok (pure (logged_id info_enabled msg.job_id)) (λ shown. pure (ok tt)) t s' tt rest in
      let unmoved : t ≡ s' =
        (pure_ok (logged_id info_enabled msg.job_id) t t' v shown).1
        ∙ (pure_ok (ok tt) t' s' tt last).1 in
      write_result_ok F R store msg.job_id msg.slice_id (encode_normalized F probs) s s'
        (written ∙ ap (λ (x : State). (ok u, x)) unmoved)

  module _ (parse : Bytes → Bytes ⊎ TaskMessage F64)
      (all_reduce_softmax : List F32 → Outcome Bytes (List F32)) where
    reduce_round_ok :
        (msg : TaskMessage F64) (s s' : State)
        → reduce_round F R info_enabled parse all_reduce_softmax msg s ≡ (ok tt, s')
        → (probs : List F32) × (all_reduce_softmax (map narrow msg.«data») ≡ ok probs)
          × Written F R store msg.job_id msg.slice_id (encode_normalized F probs) s s'
    unfolding reduce_round
    reduce_round_ok msg s s' h =
        let (probs, t, reduced, rest) =
          bind_ok (pure (all_reduce_softmax (map narrow msg.«data»)))
            (finish_round F R info_enabled msg) s s' tt h in
        let (agreed, start) =
          pure_ok (all_reduce_softmax (map narrow msg.«data»)) s t probs reduced in
        (
          probs,
          agreed,
          finish_round_ok msg probs s s'
              (ap (finish_round F R info_enabled msg probs) start ∙ rest),
        )

    softmax_round :
        (raw : Bytes) (msg : TaskMessage F64) (s : State)
        → parse raw ≡ inr msg
        → msg.task ≡ bytes "softmax"
        → nccl_round F R info_enabled parse all_reduce_softmax raw s
          ≡ reduce_round F R info_enabled parse all_reduce_softmax msg s
    unfolding nccl_round beq
    softmax_round raw msg s parsed softmax_task = rw (parsed, softmax_task, nccl_round) refl

    -- A round that goes on over a softmax message of fewer than 2 ^ 32 numbers has written what the ranks
    -- agreed on under the slice's key, and nothing else, and on a little-endian machine the gateway reads
    -- it there as normalized. The reduction returns as many numbers as it is given.
    pub read_slice-nccl_round :
        (B : IsBitExact F) (json : Parser F64)
        → ((xs ps : List F32) → all_reduce_softmax xs ≡ ok ps → length ps ≡ length xs)
        → (raw : Bytes) (msg : TaskMessage F64) (s s' : State) → parse raw ≡ inr msg
        → msg.task ≡ bytes "softmax"
        → length msg.«data» < 2 ^ 32
        → nccl_round F R info_enabled parse all_reduce_softmax raw s ≡ (ok tt, s')
        → (probs : List F32) × (all_reduce_softmax (map narrow msg.«data») ≡ ok probs)
          × (read_slice F R json little s' msg.job_id msg.slice_id
              ≡ ok (
                  some (record {
                    exp_values = map F.widen probs;
                    local_max = F.zero64;
                    partial_sum = F.one64;
                    is_normalized = true;
                  })))
          × ((j : Bytes) → j ≢ worker_key msg.job_id msg.slice_id → R.get s' j ≡ R.get s j)
    read_slice-nccl_round B json sized raw msg s s' parsed softmax_task few h =
        let (probs, agreed, (here, others)) =
          reduce_round_ok msg s s' (sym (softmax_round raw msg s parsed softmax_task) ∙ h) in
        let few_probs : length probs < 2 ^ 32 =
          omega (arith, sized (map narrow msg.«data») probs agreed, length-map narrow msg.«data») in
        (
          probs,
          agreed,
          read_slice_of_get F R json little s' msg.job_id (encode_normalized F probs) msg.slice_id
                (rw (slice_key-worker_key F R json msg.job_id msg.slice_id) here)
              ∙ decode-encode_normalized F B json msg.slice_id probs few_probs,
          others,
        )

    -- What is no message, or is another task, changes nothing.
    pub nccl_round_skips :
        (raw : Bytes) (s : State)
        → ((msg : TaskMessage F64) → parse raw ≡ inr msg → msg.task ≢ bytes "softmax")
        → nccl_round F R info_enabled parse all_reduce_softmax raw s ≡ (ok tt, s)
    unfolding nccl_round
    nccl_round_skips raw s other = skipped (parse raw) refl
      where
        skipped :
            (r : Bytes ⊎ TaskMessage F64)
            → parse raw ≡ r
            → nccl_round F R info_enabled parse all_reduce_softmax raw s ≡ (ok tt, s)
        skipped (inl e) parsed = rw (parsed, nccl_round) refl
        skipped (inr msg) parsed =
            rw (parsed, beq_apart msg.task (bytes "softmax") (other msg parsed), nccl_round) refl

    -- Every round that goes on writes under the key of its message at most.
    pub nccl_round_writes :
        (raw : Bytes) (s s' : State) (key : Bytes)
        → nccl_round F R info_enabled parse all_reduce_softmax raw s ≡ (ok tt, s')
        → ((msg : TaskMessage F64)
            → parse raw ≡ inr msg
            → msg.task ≡ bytes "softmax"
            → key ≢ worker_key msg.job_id msg.slice_id)
        → R.get s' key ≡ R.get s key
    nccl_round_writes raw s s' key h apart = by_message (parse raw) refl
      where
        stays :
            ((msg : TaskMessage F64) → parse raw ≡ inr msg → msg.task ≢ bytes "softmax")
            → R.get s' key ≡ R.get s key
        stays other =
            ap (λ (p : Outcome Bytes (Unit {0}) × State). R.get p.1 key)
              (sym h ∙ nccl_round_skips raw s other)

        by_message : (r : Bytes ⊎ TaskMessage F64) → parse raw ≡ r → R.get s' key ≡ R.get s key
        by_message (inl e) parsed = stays (λ msg p q. cc (parsed, p))
        by_message (inr msg) parsed = elim (Bool-cases (beq msg.task (bytes "softmax"))) [
          | inl softmax ↦
              let task : msg.task ≡ bytes "softmax" =
                (beq_iff msg.task (bytes "softmax")).0 softmax in
              let (probs, agreed, (here, others)) =
                reduce_round_ok msg s s' (sym (softmax_round raw msg s parsed task) ∙ h) in
              others key (apart msg parsed task)
          | inr other ↦ stays (λ m p q. cc (
            other,
            (beq_iff msg.task (bytes "softmax")).1
                (ap (λ (m : TaskMessage F64). m.task) (inr_eq msg m (sym parsed ∙ p)) ∙ q),
          ))
        ]
