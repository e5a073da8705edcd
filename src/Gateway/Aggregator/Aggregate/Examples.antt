-- ===== src/Gateway/Aggregator/Aggregate/Examples.antt =====
-- Two slices, of which one arrives after the first round.
use distributed_softmax.Prelude.{
  ℕ, zero, suc, ◌*◌, ◌+◌, ◌<◌, ◌≤◌, ◌≡◌, refl, none, some, List, [], ◌∷◌, inl, inr, Outcome, ok,
  Option, arith, range,
}
use distributed_softmax.Prelude.Int.{pos, ◌-ℤ◌}
use distributed_softmax.Text.{Bytes, bytes, beq, to_decimal, to_decimal_loop}
use distributed_softmax.Floats.MaxPlus.{Level, max_plus, max_plus-IsExact, finite_level}
use distributed_softmax.Floats.Sums.{sum, maximum}
use distributed_softmax.Wire.{little, from_ne_bytes, from_le_bytes, to_le_bytes}
use distributed_softmax.Json.{Parser}
use distributed_softmax.Redis.Memory.{memory}
use distributed_softmax.Cuda.{Driver}
use distributed_softmax.Cuda.Backwards.{backwards, backwards-IsComplete}
use distributed_softmax.Worker.Softmax.{softmax_partial}
use distributed_softmax.Worker.Handler.Encode.{encode_partial, encode_count, encode_values}
use distributed_softmax.Gateway.Config.{slice_key}
use distributed_softmax.Gateway.RedisManager.{
  get_bytes, Serde, store_final_result, set_ex, update_progress,
}
use distributed_softmax.Gateway.RedisManager.Examples.{sample_serde, no_env}
use distributed_softmax.Gateway.SliceNotifier.{register_job, unregister_job}
use distributed_softmax.Gateway.Aggregator.Cpu.{SliceStats}
use distributed_softmax.Gateway.Aggregator.Cpu.Exact.{received}
use distributed_softmax.Gateway.Aggregator.Slice.{decode_slice, read_partial, value_loop, field}
use distributed_softmax.Gateway.Aggregator.ReadSlice.{read_slice}
use distributed_softmax.Gateway.Aggregator.Aggregate.{aggregate, slice_timeout}
use distributed_softmax.Gateway.Aggregator.Aggregate.Pipeline.{
  MatchesCpu, Honest, aggregate-softmax,
}
use distributed_softmax.Gateway.GpuAggregator.{gpu_aggregate, total_elements}
use distributed_softmax.Gateway.GpuAggregator.Agrees.{gpu_aggregate-cpu}

abbrev pub job : Bytes
job = bytes "j1"

abbrev pub early_part : List Level
early_part = some (pos 3) ∷ some (pos 1) ∷ []

abbrev pub late_part : List Level
late_part = some (pos 5) ∷ []

abbrev pub no_json : Parser Level
no_json raw = inl (bytes "expected value")

abbrev serde : Serde Level
serde = sample_serde []

abbrev slice_entry : ℕ → List Level → Bytes × Bytes × Option ℕ
slice_entry i p = (slice_key job i, encode_partial max_plus (softmax_partial max_plus p), none)

abbrev pub found : ℕ → ℕ → memory.State
found zero i = (slice_entry 0 early_part ∷ [], [])
found (suc k) i = (slice_entry 1 late_part ∷ slice_entry 0 early_part ∷ [], [])

abbrev pub read : ℕ → ℕ → Outcome Bytes (Option (SliceStats max_plus))
read k i = read_slice max_plus memory no_json little (found k i) job i

abbrev pub part_stats : List Level → SliceStats max_plus
part_stats p = received max_plus (softmax_partial max_plus p)

pub early_part_found : read 0 0 ≡ ok (some (part_stats early_part))
unfolding read_slice get_bytes slice_key to_decimal to_decimal_loop beq decode_slice read_partial
    value_loop field range from_ne_bytes from_le_bytes to_le_bytes softmax_partial encode_partial
    encode_count encode_values received sum maximum ◌-ℤ◌
early_part_found = refl

early_part_later : (k : ℕ) → read (suc k) 0 ≡ ok (some (part_stats early_part))
unfolding read_slice get_bytes slice_key to_decimal to_decimal_loop beq decode_slice read_partial
    value_loop field range from_ne_bytes from_le_bytes to_le_bytes softmax_partial encode_partial
    encode_count encode_values received sum maximum ◌-ℤ◌
early_part_later k = refl

late_part_missing : read 0 1 ≡ ok none
unfolding read_slice get_bytes slice_key to_decimal to_decimal_loop beq
late_part_missing = refl

pub late_part_found : (k : ℕ) → read (suc k) 1 ≡ ok (some (part_stats late_part))
unfolding read_slice get_bytes slice_key to_decimal to_decimal_loop beq decode_slice read_partial
    value_loop field range from_ne_bytes from_le_bytes to_le_bytes softmax_partial encode_partial
    encode_count encode_values received sum maximum ◌-ℤ◌
late_part_found k = refl

abbrev pub clock_after : ℕ → ℕ
clock_after k = 100 + k * 40000

pub read_honestly :
    Honest max_plus max_plus-IsExact memory serde no_json little no_env found clock_after 100
      (some 9)
      job
      early_part
      (late_part ∷ [])
read_honestly zero zero p s own was_read = cc (early_part_found, own, was_read)
read_honestly (suc k) zero p s own was_read = cc (early_part_later k, own, was_read)
read_honestly zero (suc zero) p s own was_read = absurd (cc (late_part_missing, was_read))
read_honestly (suc k) (suc zero) p s own was_read = cc (late_part_found k, own, was_read)
read_honestly k (suc (suc i)) p s own was_read = absurd (cc own)

abbrev stored : memory.State
stored = (store_final_result memory serde no_env (some 9) job (bytes "[]") (found 1 0)).1

result_stored :
    store_final_result memory serde no_env (some 9) job (bytes "[]") (found 1 0) ≡ (ok tt, stored)
unfolding store_final_result set_ex update_progress
result_stored = refl

abbrev calls_work : Driver
calls_work c = inr tt

abbrev on_device : List (SliceStats max_plus) → Outcome Bytes (List Level)
on_device = gpu_aggregate max_plus (backwards 1) (λ i. none) (λ i. pos 0) calls_work

-- What a device computes of the two slices is what the CPU does.
device_matches :
    MatchesCpu max_plus (some on_device) (part_stats early_part ∷ part_stats late_part ∷ [])
unfolding total_elements received softmax_partial
device_matches =
    gpu_aggregate-cpu max_plus max_plus-IsExact (backwards 1) (λ i. none) (λ i. pos 0) calls_work
      (λ c. refl) (part_stats early_part ∷ part_stats late_part ∷ []) (omega arith) (omega arith)
      (λ i h. (backwards-IsComplete 1).ids_run i (omega arith))

aggregate-softmax_example :
    aggregate max_plus memory serde no_json little no_env
      (some on_device)
      found
      clock_after
      100
      (some 9)
      job
      2
      2
      (found 1 0, [])
    ≡ some (ok (bytes "[]"), (stored, unregister_job (register_job [] job) job))
unfolding slice_timeout
aggregate-softmax_example =
    aggregate-softmax max_plus max_plus-IsExact memory serde no_json little no_env found clock_after
      100 (some 9) job early_part (late_part ∷ []) (some on_device) device_matches read_honestly
      (
        (omega arith, (finite_level _, (finite_level _, tt))),
        ((omega arith, (finite_level _, tt)), tt),
      )
      (omega arith) 1 1 2 ((λ j lt. omega arith), arrives) (omega arith) (omega arith) (bytes "[]")
      (found 1 0) stored [] refl result_stored
  where
    arrives :
        (i : ℕ) → i < 2 → (j : ℕ) × (s : SliceStats max_plus) × (j ≤ 1) × (read j i ≡ ok (some s))
    arrives zero below = (0, part_stats early_part, omega arith, early_part_found)
    arrives (suc zero) below = (1, part_stats late_part, omega arith, late_part_found 0)
    arrives (suc (suc i)) below = absurd (omega arith)
