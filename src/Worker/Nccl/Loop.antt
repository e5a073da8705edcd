-- ===== src/Worker/Nccl/Loop.antt =====
-- What the loop leaves in Redis of all its rounds.
use distributed_softmax.Prelude.{
  ℕ, suc, ◌+◌, ◌<◌, ◌^◌, ◌≡◌, ◌≢◌, refl, sym, ap, ◌∙◌, Bool, true, some, List, [], ◌∷◌, ◌++◌, map,
  length, All, ◌⊎◌, inl, inr, Outcome, ok, arith, subst,
}
use distributed_softmax.Prelude.Effects.{Effect, bind_ok, pure_ok}
use distributed_softmax.Text.{Bytes, bytes}
use distributed_softmax.Floats.{Floats, IsBitExact}
use distributed_softmax.Wire.{little}
use distributed_softmax.Json.{Parser}
use distributed_softmax.Redis.{Redis, IsStore}
use distributed_softmax.Worker.Handler.Task.{TaskMessage, worker_key}
use distributed_softmax.Worker.Nccl.{nccl_round, nccl_loop}
use distributed_softmax.Worker.Nccl.Rounds.{
  read_slice-nccl_round, nccl_round_skips, nccl_round_writes,
}
use distributed_softmax.Gateway.Aggregator.ReadSlice.{
  read_slice, read_slice_same, slice_key-worker_key,
}

module _ (F : Floats) (R : Redis) (store : IsStore R) (info_enabled : Bool)
    (parse : Bytes → Bytes ⊎ TaskMessage F.F64)
    (all_reduce : ℕ → List F.F32 → Outcome Bytes (List F.F32)) where
  open R use {State}
  open F use {F32, F64, narrow}

  abbrev loop : ℕ → List (Bytes ⊎ Bytes) → Effect State Bytes (Unit {0})
  loop = nccl_loop F R info_enabled parse all_reduce

  abbrev a_round : ℕ → Bytes → Effect State Bytes (Unit {0})
  a_round r = nccl_round F R info_enabled parse (all_reduce r)

  -- What is no message, or is another task, changes nothing, and the loop goes on with the next.
  nccl_loop_skips :
      (raw : Bytes) (r : ℕ) (frames : List (Bytes ⊎ Bytes)) (s : State)
      → ((msg : TaskMessage F64) → parse raw ≡ inr msg → msg.task ≢ bytes "softmax")
      → loop r (inr raw ∷ frames) s ≡ loop (suc r) frames s
  unfolding nccl_loop
  nccl_loop_skips raw r frames s other =
      rw (nccl_round_skips F R store info_enabled parse (all_reduce r) raw s other, nccl_loop) refl

  loop-append :
      (before rest : List (Bytes ⊎ Bytes)) (r n : ℕ) (s s' : State)
      → n ≡ r + length before
      → loop r (before ++ rest) s ≡ (ok tt, s')
      → (t : State) × (loop n rest t ≡ (ok tt, s'))
  unfolding nccl_loop
  loop-append [] rest r n s s' e h = (s, subst (λ k. loop k rest s ≡ (ok tt, s')) (omega arith) h)
  loop-append (inl x ∷ before) rest r n s s' e h =
      absurd (cc (ap (λ (p : Outcome Bytes (Unit {0}) × State). p.0) h))
  loop-append (inr raw ∷ before) rest r n s s' e h =
      let (u, t, ran, after) =
        bind_ok (a_round r raw) (λ u. loop (suc r) (before ++ rest)) s s' tt h in
      loop-append before rest (suc r) n t s' (omega arith) after

  -- A frame that is no message for the slice of a key.
  abbrev pub Spares : Bytes → Bytes ⊎ Bytes → Type 0
  Spares key (inl e) = Unit
  Spares key (inr raw) =
      (msg : TaskMessage F64)
      → parse raw ≡ inr msg
      → msg.task ≡ bytes "softmax"
      → key ≢ worker_key msg.job_id msg.slice_id

  loop_keeps :
      (frames : List (Bytes ⊎ Bytes)) (r : ℕ) (s s' : State) (key : Bytes)
      → loop r frames s ≡ (ok tt, s')
      → All (Spares key) frames
      → R.get s' key ≡ R.get s key
  unfolding nccl_loop
  loop_keeps [] r s s' key h spares =
      ap (λ (t : State). R.get t key) (sym ((pure_ok (ok tt) s s' tt h).1))
  loop_keeps (inl e ∷ frames) r s s' key h spares =
      absurd (cc (ap (λ (p : Outcome Bytes (Unit {0}) × State). p.0) h))
  loop_keeps (inr raw ∷ frames) r s s' key h (spare, spares) =
      let (u, t, ran, after) = bind_ok (a_round r raw) (λ u. loop (suc r) frames) s s' tt h in
      loop_keeps frames (suc r) t s' key after spares
      ∙ nccl_round_writes F R store info_enabled parse (all_reduce r) raw s t key ran spare

  -- Where the loop has gone on over its messages, what the ranks agreed on in the last round for a slice
  -- of fewer than 2 ^ 32 numbers is in Redis, and on a little-endian machine the gateway reads it there as
  -- normalized. The reduction returns as many numbers as it is given.
  pub read_slice-nccl_loop :
      (B : IsBitExact F) (json : Parser F64)
      → ((r : ℕ) (xs ps : List F32) → all_reduce r xs ≡ ok ps → length ps ≡ length xs)
      → (before after : List (Bytes ⊎ Bytes)) (raw : Bytes) (msg : TaskMessage F64) (s s' : State)
      → parse raw ≡ inr msg
      → msg.task ≡ bytes "softmax"
      → length msg.«data» < 2 ^ 32
      → All (Spares (worker_key msg.job_id msg.slice_id)) after
      → nccl_loop F R info_enabled parse all_reduce 0 (before ++ inr raw ∷ after) s ≡ (ok tt, s')
      → (probs : List F32) × (all_reduce (length before) (map narrow msg.«data») ≡ ok probs)
        × (read_slice F R json little s' msg.job_id msg.slice_id
            ≡ ok (
                some (record {
                  exp_values = map F.widen probs;
                  local_max = F.zero64;
                  partial_sum = F.one64;
                  is_normalized = true;
                })))
  unfolding nccl_loop
  read_slice-nccl_loop B json sized before after raw msg s s' parsed task few spares h =
      let n : ℕ = length before in
      let (t, rest) = loop-append before (inr raw ∷ after) 0 n s s' (omega arith) h in
      let (u, t', ran, last) = bind_ok (a_round n raw) (λ u. loop (suc n) after) t s' tt rest in
      let (probs, agreed, found, others) =
        read_slice-nccl_round F R store info_enabled parse (all_reduce n) B json (sized n) raw msg t
          t' parsed task few ran in
      (
        probs,
        agreed,
        read_slice_same F R json little s' t' msg.job_id msg.slice_id (
              rw (slice_key-worker_key F R json msg.job_id msg.slice_id)
                (loop_keeps after (suc n) t' s' (worker_key msg.job_id msg.slice_id) last spares))
            ∙ found,
      )
