-- ===== src/Gateway/Service/Submit/Ranks.antt =====
-- From a request to its response in NCCL mode, by way of the ranks.
use distributed_softmax.Prelude.{
  ℕ, ◌+◌, ◌≤◌, ◌<◌, ◌^◌, ◌≡◌, refl, sym, ap, ap₂, ◌∙◌, true, ◌⊎◌, inr, Option, some, List, [], ◌∷◌,
  map, flatten, length, length-map, map-flatten, All, arith, Outcome, ok, subst,
}
use distributed_softmax.Text.{Bytes, bytes}
use distributed_softmax.Floats.{Floats, IsExact}
use distributed_softmax.Wire.{Endian}
use distributed_softmax.Json.{Parser}
use distributed_softmax.Redis.{Redis}
use distributed_softmax.Cuda.{Kernel, Driver, Schedule}
use distributed_softmax.Worker.Gpu.AllReduce.{ReduceOp, all_reduce_softmax}
use distributed_softmax.Worker.Gpu.AllReduce.Ranks.{IsReady, Agrees}
use distributed_softmax.Gateway.Config.{Env}
use distributed_softmax.Gateway.RedisManager.{Serde, store_final_result}
use distributed_softmax.Gateway.SliceNotifier.{Jobs, register_job, unregister_job}
use distributed_softmax.Gateway.Publisher.{Publisher}
use distributed_softmax.Gateway.Aggregator.Cpu.{SliceStats}
use distributed_softmax.Gateway.Aggregator.Cpu.Exact.{softmax}
use distributed_softmax.Gateway.Aggregator.Aggregate.{slice_timeout, aggregate}
use distributed_softmax.Gateway.Aggregator.Aggregate.Arrived.{ReadsOnly, AllArrive}
use distributed_softmax.Gateway.Aggregator.Aggregate.Ranks.{
  normalized, aggregate-all_reduce_softmax,
}
use distributed_softmax.Gateway.Service.Slices.{num_slices}
use distributed_softmax.Gateway.Service.Submit.{
  TaskRequest, slices_of, dispatch, after_dispatch, submit_task,
}
use distributed_softmax.Gateway.Service.Submit.EndToEnd.{slices_of_whole, wait_and_respond_ok}

module _ (F : Floats) (E : IsExact F) where
  open F use {F32, F64, widen, narrow}

  widen_narrowed : (xs : List F64) → map widen (map narrow xs) ≡ xs
  widen_narrowed [] = refl
  widen_narrowed (x ∷ xs) = ap₂ ◌∷◌ (E.widen-narrow x) (widen_narrowed xs)

  -- What the ranks make of the numbers that they receive.
  abbrev pub received_by : List (List F64) → List (List F32)
  received_by parts = map (map narrow) parts

  widen-received_by :
      (parts : List (List F64)) → map widen (flatten (received_by parts)) ≡ flatten parts
  widen-received_by parts =
      ap (map widen) (sym (map-flatten narrow parts)) ∙ widen_narrowed (flatten parts)

  module _ (world_size : ℕ) (env : Env) (J : Serde F64) (P : Publisher) (R : Redis)
      (parse : Parser F64) (e : Endian) (others : R.State → R.State) (found : ℕ → ℕ → R.State)
      (now : ℕ → ℕ) (start : ℕ) (clock stored_at : Option ℕ)
      (gpu : Option (List (SliceStats F) → Outcome Bytes (List F32))) (beyond : ℕ → F32)
      (driver : List F32 → Driver) (schedule : List F32 → Kernel → Schedule)
      (comm : List F32 → ReduceOp → F32 → Bytes ⊎ F32) (req : TaskRequest F32) (part : List F64)
      (parts : List (List F64)) where
    abbrev ranks : List (List F32)
    ranks = received_by (part ∷ parts)

    -- In exact arithmetic and in NCCL mode, for a gateway, with or without a GPU, that splits the
    -- request into fewer than 2 ^ 64 parts, stores the metadata, publishes every part and, after the
    -- waiting, stores the result, as text that serde_json reads back: where the ranks' devices work,
    -- on parts that fit and are not below the kernels' padding, and the reductions tell every rank
    -- the maximum and the sum of all ranks' values, whatever the gateway can read of a slice is the
    -- result of its rank, normalized, and all slices can be read before the deadline, which the clock
    -- reaches within the rounds given, the response is the softmax of the request's vector, each
    -- number as f32. The number of ranks is not 0, and the vector's length and the number of slices
    -- add up to less than 2 ^ 64.
    pub submit_task-all_reduce_softmax :
        slices_of F true world_size env req ≡ ok (part ∷ parts)
        → 0 < world_size
        → length req.vector + num_slices env < 2 ^ 64
        → All (IsReady F E beyond driver schedule comm ranks) ranks
        → All (Agrees F E beyond driver schedule comm ranks) ranks
        → (results : List (List F32))
        → map (λ ys. all_reduce_softmax F (driver ys) (schedule ys) beyond (comm ys) ys) ranks
          ≡ map ok results
        → ReadsOnly F R J parse e env found now start stored_at req.job_id (normalized F) results
        → length (part ∷ parts) < 2 ^ 64
        → (k last fuel : ℕ)
        → AllArrive F R J parse e env found now start stored_at req.job_id (normalized F) results k
        → start + slice_timeout env ≤ now last
        → last < fuel
        → (json : Bytes) (s s1 s2 : R.State) (p p1 : P.State) (jobs : Jobs)
        → J.numbers_to_string (softmax F (flatten (part ∷ parts))) ≡ inr json
        → J.numbers_from_str json ≡ inr (softmax F (flatten (part ∷ parts)))
        → dispatch F true world_size env J P R clock req (part ∷ parts) (s, p) ≡ (ok tt, (s1, p1))
        → store_final_result R J env stored_at req.job_id json (others s1) ≡ (ok tt, s2)
        → submit_task F true world_size env J P R parse e gpu others found now start clock stored_at
            fuel req
            (s, jobs, p)
          ≡ some (
            ok (record {
              message = bytes "OK";
              result = map F.narrow (softmax F (map F.widen req.vector));
            }),
            (s2, unregister_job (register_job jobs req.job_id) req.job_id, p1),
          )
    unfolding submit_task after_dispatch
    submit_task-all_reduce_softmax sliced some_ranks fits ready agrees results ran reads small k
          last fuel arrived ends enough json s s1 s2 p p1 jobs printed parsed sent stored =
        let number : length ranks ≡ length (part ∷ parts) =
          length-map (map narrow) (part ∷ parts) in
        let same : softmax F (map widen (flatten ranks)) ≡ softmax F (flatten (part ∷ parts)) =
          ap (softmax F) (widen-received_by (part ∷ parts)) in
        let aggregated =
          aggregate-all_reduce_softmax F R J parse e env gpu E beyond driver schedule comm found now
            start stored_at req.job_id (map narrow part) (received_by parts) ready agrees results
            ran reads (omega arith) k last fuel arrived ends enough json (others s1) s2 jobs
            (ap J.numbers_to_string same ∙ printed) stored in
        rw (sliced, sent, submit_task, after_dispatch)
          (wait_and_respond_ok F true world_size env E J P R parse e others found now start clock
            stored_at gpu req part parts json s1 s2 p1 jobs fuel
            (subst
              (λ n.
                aggregate F R J parse e env gpu found now start stored_at req.job_id fuel n
                  (others s1, jobs)
                ≡ some (ok json, (s2, unregister_job (register_job jobs req.job_id) req.job_id)))
              number aggregated)
            (parsed
              ∙ ap (λ (t : List F64). inr (softmax F t))
                  (slices_of_whole F true world_size env req (part ∷ parts) some_ranks fits
                    sliced)))
