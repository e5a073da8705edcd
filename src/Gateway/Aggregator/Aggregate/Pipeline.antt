-- ===== src/Gateway/Aggregator/Aggregate/Pipeline.antt =====
-- From the slices in Redis to the result of the gateway.
use distributed_softmax.Prelude.{
  ℕ, ◌+◌, ◌≤◌, ◌<◌, ◌^◌, ◌≡◌, refl, ap, ◌∙◌, Option, none, some, List, ◌∷◌, map, flatten, length,
  All, inr, Outcome, ok,
}
use distributed_softmax.Text.{Bytes}
use distributed_softmax.Floats.{Floats, IsExact}
use distributed_softmax.Wire.{Endian}
use distributed_softmax.Json.{Parser}
use distributed_softmax.Redis.{Redis}
use distributed_softmax.Worker.Softmax.{softmax_partial}
use distributed_softmax.Gateway.Config.{Env}
use distributed_softmax.Gateway.RedisManager.{Serde, store_final_result}
use distributed_softmax.Gateway.SliceNotifier.{Jobs, register_job, unregister_job}
use distributed_softmax.Gateway.Aggregator.Cpu.{SliceStats, aggregate_softmax_cpu}
use distributed_softmax.Gateway.Aggregator.Cpu.Exact.{IsPart, softmax, received}
use distributed_softmax.Gateway.Aggregator.Cpu.Distributed.{aggregate-softmax_partial}
use distributed_softmax.Gateway.Aggregator.Aggregate.Arrived.{
  ReadsOnly, AllArrive, aggregate_arrived,
}
use distributed_softmax.Gateway.Aggregator.Aggregate.{
  slice_timeout, first_is_normalized, final_values, aggregate,
}

-- A gateway has no GPU, or one whose aggregation of these slices is the CPU's.
abbrev pub MatchesCpu :
    (F : Floats)
    → Option (List (SliceStats F) → Outcome Bytes (List F.F32))
    → List (SliceStats F)
    → Type 0
MatchesCpu F none stats = Unit
MatchesCpu F (some run) stats =
    (result : List F.F32) × (run stats ≡ ok result)
    × (map F.widen result ≡ aggregate_softmax_cpu F stats)

module _ (F : Floats) (E : IsExact F) (R : Redis) (J : Serde F.F64) (parse : Parser F.F64)
    (e : Endian) (env : Env) where
  open F use {F64}

  abbrev of_part : List F64 → SliceStats F
  of_part p = received F (softmax_partial F p)

  module _ (found : ℕ → ℕ → R.State) (now : ℕ → ℕ) (start : ℕ) (clock : Option ℕ) (job_id : Bytes)
      (part : List F64) (parts : List (List F64)) where
    abbrev every : List (List F64)
    every = part ∷ parts

    abbrev pub Honest : Type 0
    Honest = ReadsOnly F R J parse e env found now start clock job_id of_part every

    -- Every slice can be read in some round up to `k`, and the deadline has not passed before that.
    abbrev pub Arrived : ℕ → Type 0
    Arrived = AllArrive F R J parse e env found now start clock job_id of_part every

    module _ (gpu : Option (List (SliceStats F) → Outcome Bytes (List F.F32)))
        (matches : MatchesCpu F gpu (map of_part every)) (honest : Honest) where
      parts_values :
          All (IsPart F E) every
          → final_values F R J parse e env gpu (map of_part every) ≡ ok (softmax F (flatten every))
      unfolding final_values first_is_normalized received
      parts_values h =
          by_gpu gpu matches
          ∙ ap (λ (t : List F64). ok t) (aggregate-softmax_partial F E part parts h)
        where
          by_gpu :
              (g : Option (List (SliceStats F) → Outcome Bytes (List F.F32)))
              → MatchesCpu F g (map of_part every)
              → final_values F R J parse e env g (map of_part every)
                ≡ ok (aggregate_softmax_cpu F (map of_part every))
          by_gpu none m = refl
          by_gpu (some run) (result, ran, same) =
              rw (ran, final_values) (ap (λ (t : List F64). ok t) same)

      -- In exact arithmetic, where whatever the gateway can read of a slice is the partial softmax of
      -- its part, all parts being non-empty and finite and fewer than 2 ^ 64, and all slices can be
      -- read before the deadline, the gateway, without a GPU or with one that aggregates them as the
      -- CPU does, stores and returns the text of the softmax of the whole vector and no longer waits
      -- for the job. The storing is taken to succeed, and the clock to reach the deadline within the
      -- rounds given.
      pub aggregate-softmax :
          All (IsPart F E) every
          → length every < 2 ^ 64
          → (k last fuel : ℕ) → Arrived k
          → start + slice_timeout env ≤ now last
          → last < fuel
          → (json : Bytes) (s s' : R.State) (jobs : Jobs)
          → J.numbers_to_string (softmax F (flatten every)) ≡ inr json
          → store_final_result R J env clock job_id json s ≡ (ok tt, s')
          → aggregate F R J parse e env gpu found now start clock job_id fuel
              (length every)
              (s, jobs)
            ≡ some (ok json, (s', unregister_job (register_job jobs job_id) job_id))
      aggregate-softmax h small k last fuel arrived ends enough json s s' jobs printed stored =
          aggregate_arrived F R J parse e env found now start clock job_id of_part every honest gpu
            (softmax F (flatten every)) (parts_values h) small k last fuel arrived ends enough json
            s s' jobs printed stored
