-- ===== src/Gateway/Aggregator/Aggregate.antt =====
-- gateway-rs/src/aggregator.rs: `ResultAggregator::new` and `aggregate`. The times are milliseconds.
pub mod Arrived
pub mod Pipeline
pub mod Ranks
pub mod TwoRanks
pub mod Examples
use distributed_softmax.Prelude.{
  ℕ, ◌+◌, Bool, true, false, Option, none, some, List, [], ◌∷◌, map, flatten, if◌then◌else◌,
  Outcome, ok, err, panic, from_sum,
}
use distributed_softmax.Prelude.Outcomes
use distributed_softmax.Prelude.Effects.{Effect, ◌>>=◌, pure}
use mathlib.Core.Option
use distributed_softmax.Text.{Bytes, bytes, parse_uint, u64_max}
use distributed_softmax.Floats.{Floats}
use distributed_softmax.Wire.{Endian}
use distributed_softmax.Json.{Parser}
use distributed_softmax.Redis.{Redis}
use distributed_softmax.Gateway.Config.{Env}
use distributed_softmax.Gateway.RedisManager.{Serde, Io, store_final_result}
use distributed_softmax.Gateway.SliceNotifier.{Jobs, register_job, unregister_job}
use distributed_softmax.Gateway.Aggregator.Cpu.{SliceStats, default_stats, aggregate_softmax_cpu}
use distributed_softmax.Gateway.Aggregator.ReadSlice.{read_slice}
use distributed_softmax.Gateway.Aggregator.Wait.{wait_for_all_slices}

-- `slice_timeout`
unfoldable pub slice_timeout : Env → ℕ
unfolding Option.bind
slice_timeout env = elim (Option.bind (env (bytes "SLICE_TIMEOUT_MS")) (parse_uint u64_max)) [
  | none ↦ 30000
  | some ms ↦ ms
]

module _ (F : Floats) (R : Redis) (J : Serde F.F64) (parse : Parser F.F64) (e : Endian)
    (env : Env) where
  -- `stats.first().map(|s| s.is_normalized).unwrap_or(false)`
  unfoldable pub first_is_normalized : List (SliceStats F) → Bool
  first_is_normalized [] = false
  first_is_normalized (s ∷ rest) = s.is_normalized

  -- `gpu` is the device's aggregation, where there is one.
  module _ (gpu : Option (List (SliceStats F) → Outcome Bytes (List F.F32))) where
    unfoldable pub final_values : List (SliceStats F) → Outcome Bytes (List F.F64)
    unfolding first_is_normalized
    final_values stats =
        if first_is_normalized stats
        then ok (flatten (map (λ s. s.exp_values) stats))
        else elim gpu [
          | none ↦ ok (aggregate_softmax_cpu F stats)
          | some run ↦ Outcomes.◌>>=◌ (run stats) (λ result. ok (map F.widen result))
        ]

    -- The server that round `k` finds when it reads slice `i`, the clock after round `k`, the time when
    -- the waiting starts, and the seconds since 1970 when the result is stored.
    module _ (found : ℕ → ℕ → R.State) (now : ℕ → ℕ) (start : ℕ) (clock : Option ℕ)
        (job_id : Bytes) where
      unfoldable pub collect : (fuel total : ℕ) → Option (Outcome Bytes (List (SliceStats F)))
      unfolding wait_for_all_slices read_slice slice_timeout
      collect fuel total =
          wait_for_all_slices (λ k i. read_slice F R parse e (found k i) job_id i) now job_id total
            (start + slice_timeout env) fuel (default_stats F)

      unfoldable pub finish : List (SliceStats F) → Io R Bytes
      unfolding final_values store_final_result
      finish stats = do
        values ← pure (final_values stats)
        result_json ← pure (from_sum (J.numbers_to_string values))
        stored ← store_final_result R J env clock job_id result_json
        pure (ok result_json)

      -- With the jobs that the notifier holds; `none` where the fuel is used up. The server is the one
      -- that is found after the waiting.
      unfoldable pub aggregate :
          (fuel total : ℕ) → R.State × Jobs → Option (Outcome Bytes Bytes × (R.State × Jobs))
      unfolding collect finish register_job unregister_job
      aggregate fuel total (s, jobs) = elim (collect fuel total) [
        | none ↦ none
        | some r ↦
            let (result, s') = (pure r >>= finish) s in
            some (result, (s', unregister_job (register_job jobs job_id) job_id))
      ]
