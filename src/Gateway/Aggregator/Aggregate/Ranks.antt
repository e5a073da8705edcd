-- ===== src/Gateway/Aggregator/Aggregate/Ranks.antt =====
-- From the ranks' slices in Redis to the result of the gateway, in NCCL mode.
use distributed_softmax.Prelude.{
  ℕ, ◌+◌, ◌≤◌, ◌<◌, ◌^◌, ◌≡◌, refl, sym, ap, ap₂, ◌∙◌, Option, List, [], ◌∷◌, map, flatten, length,
  length-map, map-map, map-flatten, All, ◌⊎◌, inr, Outcome, ok, true, subst, some, arith,
}
use distributed_softmax.Errors.{ok_eq}
use distributed_softmax.Text.{Bytes}
use distributed_softmax.Floats.{Floats, IsExact}
use distributed_softmax.Wire.{Endian}
use distributed_softmax.Json.{Parser}
use distributed_softmax.Redis.{Redis}
use distributed_softmax.Cuda.{Kernel, Driver, Schedule}
use distributed_softmax.Worker.Gpu.AllReduce.{ReduceOp, all_reduce_softmax}
use distributed_softmax.Worker.Gpu.AllReduce.Ranks.{IsReady, Agrees, all_reduce_softmax-softmax}
use distributed_softmax.Gateway.Config.{Env}
use distributed_softmax.Gateway.RedisManager.{Serde, store_final_result}
use distributed_softmax.Gateway.SliceNotifier.{Jobs, register_job, unregister_job}
use distributed_softmax.Gateway.Aggregator.Cpu.{SliceStats}
use distributed_softmax.Gateway.Aggregator.Cpu.Exact.{softmax}
use distributed_softmax.Gateway.Aggregator.Aggregate.Arrived.{
  ReadsOnly, AllArrive, aggregate_arrived,
}
use distributed_softmax.Gateway.Aggregator.Aggregate.{
  slice_timeout, first_is_normalized, final_values, aggregate,
}

-- What is read of a slice that holds these probabilities.
abbrev pub normalized : (F : Floats) → List F.F32 → SliceStats F
normalized F ps = record {
  exp_values = map F.widen ps;
  local_max = F.zero64;
  partial_sum = F.one64;
  is_normalized = true;
}

all_ok {ℓ} :
    {A : Type ℓ} (xs ys : List A)
    → ◌≡◌ {A = List (Outcome Bytes A)} (map ok xs) (map ok ys)
    → xs ≡ ys
all_ok [] [] h = refl
all_ok [] (y ∷ ys) h = absurd (cc h)
all_ok (x ∷ xs) [] h = absurd (cc h)
all_ok (x ∷ xs) (y ∷ ys) h = ap₂ ◌∷◌ (ok_eq x y (cc h)) (all_ok xs ys (cc h))

module _ (F : Floats) (R : Redis) (J : Serde F.F64) (parse : Parser F.F64) (e : Endian) (env : Env)
    (gpu : Option (List (SliceStats F) → Outcome Bytes (List F.F32))) where
  open F use {F32, widen}

  -- Normalized slices are put together as they are, whatever device there is.
  final_values-normalized :
      (results : List (List F32))
      → 0 < length results
      → final_values F R J parse e env gpu (map (normalized F) results)
        ≡ ok (map widen (flatten results))
  unfolding final_values first_is_normalized
  final_values-normalized [] h = absurd (omega arith)
  final_values-normalized (first ∷ rest) h =
      ap (λ (t : List (List F.F64)). ok (flatten t))
        (map-map (λ s. s.exp_values) (normalized F) (first ∷ rest))
      ∙ ap ok (sym (map-flatten widen (first ∷ rest)))

  module _ (E : IsExact F) (beyond : ℕ → F32) (driver : List F32 → Driver)
      (schedule : List F32 → Kernel → Schedule) (comm : List F32 → ReduceOp → F32 → Bytes ⊎ F32)
      (found : ℕ → ℕ → R.State) (now : ℕ → ℕ) (start : ℕ) (clock : Option ℕ) (job_id : Bytes)
      (first : List F32) (rest : List (List F32)) where
    abbrev ranks : List (List F32)
    ranks = first ∷ rest

    -- In exact arithmetic, for a gateway with or without a GPU and fewer than 2 ^ 64 ranks: where the
    -- ranks' devices work, on slices that fit and are not below the kernels' padding, and the
    -- reductions tell every rank the maximum and the sum of all ranks' values, whatever the gateway
    -- can read of a slice is the result of its rank, normalized, and all slices can be read before
    -- the deadline, the gateway stores and returns the text of the softmax of the whole vector and no
    -- longer waits for the job. The storing is taken to succeed, and the clock to reach the deadline
    -- within the rounds given.
    pub aggregate-all_reduce_softmax :
        All (IsReady F E beyond driver schedule comm ranks) ranks
        → All (Agrees F E beyond driver schedule comm ranks) ranks
        → (results : List (List F32))
        → map (λ ys. all_reduce_softmax F (driver ys) (schedule ys) beyond (comm ys) ys) ranks
          ≡ map ok results
        → ReadsOnly F R J parse e env found now start clock job_id (normalized F) results
        → length ranks < 2 ^ 64
        → (k last fuel : ℕ)
        → AllArrive F R J parse e env found now start clock job_id (normalized F) results k
        → start + slice_timeout env ≤ now last
        → last < fuel
        → (json : Bytes) (s s' : R.State) (jobs : Jobs)
        → J.numbers_to_string (softmax F (map widen (flatten ranks))) ≡ inr json
        → store_final_result R J env clock job_id json s ≡ (ok tt, s')
        → aggregate F R J parse e env gpu found now start clock job_id fuel (length ranks) (s, jobs)
          ≡ some (ok json, (s', unregister_job (register_job jobs job_id) job_id))
    aggregate-all_reduce_softmax ready agrees results ran reads small k last fuel arrived ends
          enough json s s' jobs printed stored =
        let (made, all, whole) =
          all_reduce_softmax-softmax F E beyond driver schedule comm ranks ready agrees in
        let same : made ≡ results = all_ok made results (sym all ∙ ran) in
        let number : length results ≡ length ranks =
          sym (length-map ok results)
          ∙ ap length (sym ran)
          ∙ length-map (λ ys. all_reduce_softmax F (driver ys) (schedule ys) beyond (comm ys) ys)
              ranks in
        let values =
          final_values-normalized results (omega arith)
          ∙ ap ok (ap (λ (t : List (List F32)). map widen (flatten t)) (sym same) ∙ whole) in
        subst
          (λ n.
            aggregate F R J parse e env gpu found now start clock job_id fuel n (s, jobs)
            ≡ some (ok json, (s', unregister_job (register_job jobs job_id) job_id)))
          number
          (aggregate_arrived F R J parse e env found now start clock job_id (normalized F) results
            reads gpu (softmax F (map widen (flatten ranks))) values (omega arith) k last fuel
            arrived ends enough json s s' jobs printed stored)
