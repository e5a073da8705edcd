-- ===== src/Gateway/Aggregator/Cpu/Examples.antt =====
-- The aggregation at concrete slices.
use distributed_softmax.Prelude.{◌≡◌, refl, some, List, [], ◌∷◌, map, flatten, zip, arith}
use distributed_softmax.Prelude.Int.{pos, negsuc, ◌+ℤ◌, ◌-ℤ◌}
use distributed_softmax.Floats.Sums.{sum, maximum}
use distributed_softmax.Floats.MaxPlus.{Level, max_plus, max_plus-IsExact, finite_level}
use distributed_softmax.Worker.Softmax.{softmax_partial}
use distributed_softmax.Gateway.Aggregator.Cpu.{
  aggregate_softmax_cpu, adjust, global_max, global_sum,
}
use distributed_softmax.Gateway.Aggregator.Cpu.Exact.{softmax, received}
use distributed_softmax.Gateway.Aggregator.Cpu.Distributed.{aggregate-softmax_partial}

abbrev first : List Level
first = some (pos 3) ∷ some (pos 1) ∷ []

abbrev second : List Level
second = some (pos 5) ∷ []

abbrev third : List Level
third = some (negsuc 1) ∷ some (pos 0) ∷ []

aggregate_runs :
    aggregate_softmax_cpu max_plus
      (map (λ p. received max_plus (softmax_partial max_plus p)) (first ∷ second ∷ []))
    ≡ some (negsuc 1) ∷ some (negsuc 3) ∷ some (pos 0) ∷ []
unfolding aggregate_softmax_cpu adjust global_max global_sum received softmax_partial sum maximum
    ◌+ℤ◌ ◌-ℤ◌ flatten zip
aggregate_runs = refl

aggregate-softmax_partial_example :
    aggregate_softmax_cpu max_plus
      (map (λ p. received max_plus (softmax_partial max_plus p)) (first ∷ second ∷ third ∷ []))
    ≡ softmax max_plus (flatten (first ∷ second ∷ third ∷ []))
aggregate-softmax_partial_example =
    aggregate-softmax_partial max_plus max_plus-IsExact first (second ∷ third ∷ []) (
      (omega arith, (finite_level _, (finite_level _, tt))),
      (
        (omega arith, (finite_level _, tt)),
        ((omega arith, (finite_level _, (finite_level _, tt))), tt),
      ),
    )
