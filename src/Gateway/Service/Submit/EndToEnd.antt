-- ===== src/Gateway/Service/Submit/EndToEnd.antt =====
-- From a request to its response.
use distributed_softmax.Prelude.{
  ℕ, ◌+◌, ◌≤◌, ◌<◌, ◌^◌, ◌≡◌, refl, sym, ap, ◌∙◌, Bool, true, false, Bool-cases, inl, inr, Option,
  some, List, ◌∷◌, map, flatten, length, length-map, All, arith, ltb, ◌==◌, Outcome, ok,
}
use distributed_softmax.Text.{Bytes, bytes, beq}
use distributed_softmax.Floats.{Floats, IsExact}
use distributed_softmax.Wire.{Endian}
use distributed_softmax.Json.{Parser}
use distributed_softmax.Redis.{Redis}
use distributed_softmax.Gateway.Config.{Env}
use distributed_softmax.Gateway.RedisManager.{Serde, store_final_result}
use distributed_softmax.Gateway.SliceNotifier.{Jobs, register_job, unregister_job}
use distributed_softmax.Gateway.Publisher.{Publisher}
use distributed_softmax.Worker.Softmax.{softmax_partial}
use distributed_softmax.Gateway.Aggregator.Cpu.{SliceStats}
use distributed_softmax.Gateway.Aggregator.Cpu.Exact.{IsPart, softmax, received}
use distributed_softmax.Gateway.Aggregator.Aggregate.{slice_timeout, aggregate}
use distributed_softmax.Gateway.Aggregator.Aggregate.Pipeline.{
  MatchesCpu, Honest, Arrived, aggregate-softmax,
}
use distributed_softmax.Gateway.Service.Slices.{num_slices, split_vector}
use distributed_softmax.Gateway.Service.Slices.Even.{split_vector-even, split_vector_short}
use distributed_softmax.Gateway.Service.Slices.Chunks.{split_vector-chunks}
use distributed_softmax.Gateway.Service.Submit.{
  TaskRequest, slices_of, dispatch, respond, wait_and_respond, after_dispatch, submit_task,
}

-- Slices that are accepted make up the vector.
split_vector_whole {ℓ} :
    {A : Type ℓ} (nccl : Bool) (world_size : ℕ) (env : Env) (xs : List A) (out : List (List A))
    → 0 < length xs
    → 0 < world_size
    → length xs + num_slices env < 2 ^ 64
    → split_vector nccl world_size env xs ≡ ok out
    → flatten out ≡ xs
split_vector_whole true world_size env xs out h ranks fits e =
    elim (Bool-cases (ltb (length xs) world_size)) [
      | inl short ↦ absurd (cc (split_vector_short world_size env xs (ground arith), e))
      | inr enough ↦
          let (made, run, whole, number, sizes, some_each) =
            split_vector-even world_size env xs ranks (ground arith) in
          let same : made ≡ out = cc (run, e) in ap flatten (sym same) ∙ whole
    ]
split_vector_whole false world_size env xs out h ranks fits e =
    let (made, run, whole, few, sizes) = split_vector-chunks world_size env xs h fits in
    let same : made ≡ out = cc (run, e) in ap flatten (sym same) ∙ whole

module _ (F : Floats) (nccl_dispatch : Bool) (world_size : ℕ) (env : Env) where
  open F use {F32, F64}

  pub slices_of_whole :
      (req : TaskRequest F32) (out : List (List F64))
      → 0 < world_size
      → length req.vector + num_slices env < 2 ^ 64
      → slices_of F nccl_dispatch world_size env req ≡ ok out
      → flatten out ≡ map F.widen req.vector
  unfolding slices_of
  slices_of_whole req out ranks fits e = elim (Bool-cases (beq req.task (bytes "softmax"))) [
    | inr other ↦ absurd (cc (rw (other, slices_of) at e))
    | inl softmax_task ↦ elim (Bool-cases (length (map F.widen req.vector) == 0)) [
      | inl empty ↦ absurd (cc (rw (softmax_task, empty, slices_of) at e))
      | inr some_data ↦
          let split : split_vector nccl_dispatch world_size env (map F.widen req.vector) ≡ ok out =
            rw (softmax_task, some_data, slices_of) at e in
          split_vector_whole nccl_dispatch world_size env (map F.widen req.vector) out
            (ground arith) ranks (omega (arith, length-map F.widen req.vector)) split
    ]
  ]

  module _ (E : IsExact F) (J : Serde F64) (P : Publisher) (R : Redis) (parse : Parser F64)
      (e : Endian) (others : R.State → R.State) (found : ℕ → ℕ → R.State) (now : ℕ → ℕ) (start : ℕ)
      (clock stored_at : Option ℕ)
      (gpu : Option (List (SliceStats F) → Outcome Bytes (List F32))) where
    pub wait_and_respond_ok :
        (req : TaskRequest F32) (part : List F64) (parts : List (List F64)) (json : Bytes)
        (s1 s2 : R.State) (p1 : P.State) (jobs : Jobs) (fuel : ℕ)
        → aggregate F R J parse e env gpu found now start stored_at req.job_id fuel
            (length (part ∷ parts))
            (others s1, jobs)
          ≡ some (ok json, (s2, unregister_job (register_job jobs req.job_id) req.job_id))
        → J.numbers_from_str json ≡ inr (softmax F (map F.widen req.vector))
        → wait_and_respond F nccl_dispatch world_size env J P R parse e gpu others found now start
            clock stored_at fuel req.job_id
            (part ∷ parts)
            (s1, jobs, p1)
          ≡ some (
            ok (record {
              message = bytes "OK";
              result = map F.narrow (softmax F (map F.widen req.vector));
            }),
            (s2, unregister_job (register_job jobs req.job_id) req.job_id, p1),
          )
    unfolding wait_and_respond respond
    wait_and_respond_ok req part parts json s1 s2 p1 jobs fuel aggregated parsed =
        rw (aggregated, wait_and_respond) (rw (parsed, respond) refl)

    -- In exact arithmetic, for a gateway without a GPU, or with one that aggregates as the CPU does,
    -- that splits the request into finite parts, fewer than 2 ^ 64, stores the metadata, publishes
    -- every part and, after the waiting, stores the result, as text that serde_json reads back: where
    -- whatever it can read of a slice is the partial softmax of its part and all slices can be read
    -- before the deadline, which the clock reaches within the rounds given, the response is the
    -- softmax of the request's vector, each number as f32. The number of ranks is not 0, and the
    -- vector's length and the number of slices add up to less than 2 ^ 64.
    pub submit_task-softmax :
        (req : TaskRequest F32) (part : List F64) (parts : List (List F64))
        → slices_of F nccl_dispatch world_size env req ≡ ok (part ∷ parts)
        → 0 < world_size
        → length req.vector + num_slices env < 2 ^ 64
        → All (IsPart F E) (part ∷ parts)
        → length (part ∷ parts) < 2 ^ 64
        → MatchesCpu F gpu (map (λ p. received F (softmax_partial F p)) (part ∷ parts))
        → Honest F E R J parse e env found now start stored_at req.job_id part parts
        → (k last fuel : ℕ)
        → Arrived F E R J parse e env found now start stored_at req.job_id part parts k
        → start + slice_timeout env ≤ now last
        → last < fuel
        → (json : Bytes) (s s1 s2 : R.State) (p p1 : P.State) (jobs : Jobs)
        → J.numbers_to_string (softmax F (flatten (part ∷ parts))) ≡ inr json
        → J.numbers_from_str json ≡ inr (softmax F (flatten (part ∷ parts)))
        → dispatch F nccl_dispatch world_size env J P R clock req (part ∷ parts) (s, p)
          ≡ (ok tt, (s1, p1))
        → store_final_result R J env stored_at req.job_id json (others s1) ≡ (ok tt, s2)
        → submit_task F nccl_dispatch world_size env J P R parse e gpu others found now start clock
            stored_at fuel req
            (s, jobs, p)
          ≡ some (
            ok (record {
              message = bytes "OK";
              result = map F.narrow (softmax F (map F.widen req.vector));
            }),
            (s2, unregister_job (register_job jobs req.job_id) req.job_id, p1),
          )
    unfolding submit_task after_dispatch
    submit_task-softmax req part parts sliced ranks fits h small matches honest k last fuel arrived
          ends enough json s s1 s2 p p1 jobs printed parsed sent stored =
        rw (sliced, sent, submit_task, after_dispatch)
          (wait_and_respond_ok req part parts json s1 s2 p1 jobs fuel
            (aggregate-softmax F E R J parse e env found now start stored_at req.job_id part parts
              gpu matches honest h small k last fuel arrived ends enough json (others s1) s2 jobs
              printed stored)
            (parsed
              ∙ ap (λ (t : List F64). inr (softmax F t))
                  (slices_of_whole req (part ∷ parts) ranks fits sliced)))
