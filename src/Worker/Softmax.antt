-- ===== src/Worker/Softmax.antt =====
-- worker-rs/src/softmax.rs: the partial softmax of one slice, on the CPU.
use distributed_softmax.Prelude.{List, [], ◌∷◌, map}
use distributed_softmax.Floats.{Floats}
use distributed_softmax.Floats.Sums.{sum, maximum}

pub record PartialStats (F : Floats) : Type 0 where
  pub local_max : F.F64
  pub partial_sum : F.F64
  pub exp_values : List F.F32

module _ (F : Floats) where
  open F use {F64, F32, sub, exp, zero64, widen, narrow}

  unfoldable pub softmax_partial : List F64 → PartialStats F
  softmax_partial [] = record { local_max = zero64; partial_sum = zero64; exp_values = [] }
  softmax_partial (x ∷ xs) =
      let slice = x ∷ xs in
      let local_max = maximum F slice in
      let exp_values = map (λ x. narrow (exp (sub x local_max))) slice in
      record {
        local_max = local_max;
        partial_sum = sum F (map widen exp_values);
        exp_values = exp_values;
      }
