-- ===== src/Gateway/Aggregator/Cpu.antt =====
-- gateway-rs/src/aggregator.rs: `SliceStats` and `aggregate_softmax_cpu`.
pub mod Exact
pub mod Distributed
pub mod Examples
use distributed_softmax.Prelude.{Bool, false, List, [], ◌∷◌, map, flatten, zip}
use distributed_softmax.Floats.{Floats}
use distributed_softmax.Floats.Sums.{sum, maximum}

pub record SliceStats (F : Floats) : Type 0 where
  pub exp_values : List F.F64
  pub local_max : F.F64
  pub partial_sum : F.F64
  pub is_normalized : Bool

module _ (F : Floats) where
  open F use {F64, sub, mul, div, exp, zero64, one64}

  -- `SliceStats::default()`
  unfoldable pub default_stats : SliceStats F
  default_stats = record {
    exp_values = [];
    local_max = zero64;
    partial_sum = one64;
    is_normalized = false;
  }

  unfoldable pub global_max : List (SliceStats F) → F64
  global_max stats = maximum F (map (λ s. s.local_max) stats)

  unfoldable pub adjust : List (SliceStats F) → List F64
  adjust stats = map (λ s. exp (sub s.local_max (global_max stats))) stats

  unfoldable pub global_sum : List (SliceStats F) → F64
  global_sum stats = sum F (map (λ (s, a). mul s.partial_sum a) (zip stats (adjust stats)))

  unfoldable pub aggregate_softmax_cpu : List (SliceStats F) → List F64
  aggregate_softmax_cpu [] = []
  aggregate_softmax_cpu (first ∷ rest) =
      let stats = first ∷ rest in
      let total = global_sum stats in
      flatten
        (map (λ (s, a). map (λ ev. div (mul ev a) total) s.exp_values) (zip stats (adjust stats)))
