-- ===== src/Gateway/GpuAggregator/Examples.antt =====
-- Two slices on a device.
use distributed_softmax.Prelude.{
  ◌≡◌, refl, none, some, List, [], ◌∷◌, map, ok, inr, inl, arith, false,
}
use distributed_softmax.Prelude.Int.{pos, negsuc}
use distributed_softmax.Text.{bytes}
use distributed_softmax.Floats.MaxPlus.{Level, max_plus, max_plus-IsExact}
use distributed_softmax.Cuda.{Driver}
use distributed_softmax.Cuda.Backwards.{backwards, backwards-IsComplete}
use distributed_softmax.Gateway.Aggregator.Cpu.{SliceStats, aggregate_softmax_cpu}
use distributed_softmax.Gateway.GpuAggregator.{
  gpu_aggregate, total_elements, try_new, init_aggregator, global_aggregator,
}
use distributed_softmax.Gateway.GpuAggregator.Agrees.{gpu_aggregate-cpu}

abbrev calls_work : Driver
calls_work c = inr tt

abbrev no_device : Driver
no_device c = inl (bytes "no device")

abbrev slices : List (SliceStats max_plus)
slices =
    record {
      exp_values = some (pos 0) ∷ some (negsuc 1) ∷ [];
      local_max = some (pos 3);
      partial_sum = some (pos 0);
      is_normalized = false;
    }
    ∷ record {
      exp_values = some (pos 0) ∷ [];
      local_max = some (pos 5);
      partial_sum = some (pos 0);
      is_normalized = false;
    }
    ∷ []

falls_back : global_aggregator no_device 0 none ≡ (none, some none)
unfolding global_aggregator try_new init_aggregator
falls_back = refl

stays_without : global_aggregator calls_work 0 (some none) ≡ (none, some none)
unfolding global_aggregator
stays_without = refl

few_elements : total_elements max_plus slices ≡ 3
unfolding total_elements
few_elements = refl

gpu_aggregate-cpu_example :
    (result : List Level) × (gpu_aggregate max_plus
        (backwards 1)
        (λ i. none)
        (λ i. pos 0)
        calls_work
        slices
      ≡ ok result)
    × (map max_plus.widen result ≡ aggregate_softmax_cpu max_plus slices)
gpu_aggregate-cpu_example =
    gpu_aggregate-cpu max_plus max_plus-IsExact (backwards 1) (λ i. none) (λ i. pos 0) calls_work
      (λ c. refl) slices (omega (arith, few_elements)) (omega arith)
      (λ i h. (backwards-IsComplete 1).ids_run i (omega (arith, few_elements)))
