-- ===== src/Worker/Gpu/AllReduce/Examples.antt =====
-- Two ranks.
use distributed_softmax.Prelude.{
  ℕ, ◌≡◌, refl, none, some, List, [], ◌∷◌, length, map, flatten, ok, inr, arith, ◌⊎◌, All,
}
use distributed_softmax.Prelude.Int.{pos, negsuc}
use distributed_softmax.Text.{Bytes}
use distributed_softmax.Floats.Sums.{maximum}
use distributed_softmax.Floats.MaxPlus.{Level, max_plus, max_plus-IsExact}
use distributed_softmax.Cuda.{Kernel, Driver, Schedule, num_blocks}
use distributed_softmax.Cuda.Backwards.{backwards, backwards-IsComplete}
use distributed_softmax.Gateway.Aggregator.Cpu.Exact.{softmax}
use distributed_softmax.Worker.Gpu.AllReduce.{ReduceOp, reduce_max, reduce_sum, all_reduce_softmax}
use distributed_softmax.Worker.Gpu.AllReduce.Ranks.{
  IsReady, Agrees, all_reduce_softmax-softmax, top, norm,
}

abbrev pub calls_work : List Level → Driver
calls_work ys c = inr tt

abbrev pub in_blocks : List Level → Kernel → Schedule
in_blocks ys k = backwards (num_blocks (length ys))

abbrev pub nothing : ℕ → Level
nothing i = none

abbrev pub first : List Level
first = some (pos 3) ∷ some (negsuc 4) ∷ []

abbrev pub second : List Level
second = some (pos 5) ∷ []

abbrev pub ranks : List (List Level)
ranks = first ∷ second ∷ []

abbrev unused : List Level → ReduceOp → Level → Bytes ⊎ Level
unused ys op x = inr x

-- A communicator that knows what all ranks send.
abbrev pub told : List Level → ReduceOp → Level → Bytes ⊎ Level
told ys reduce_max x = inr (top max_plus max_plus-IsExact nothing calls_work in_blocks unused ranks)
told ys reduce_sum x =
    inr (norm max_plus max_plus-IsExact nothing calls_work in_blocks unused ranks)

above_pad_first :
    max_plus.max (maximum max_plus first) (max_plus.widen max_plus.pad32) ≡ maximum max_plus first
unfolding maximum
above_pad_first = refl

above_pad_second :
    max_plus.max (maximum max_plus second) (max_plus.widen max_plus.pad32) ≡ maximum max_plus second
unfolding maximum
above_pad_second = refl

pub ranks-IsReady :
    All (IsReady max_plus max_plus-IsExact nothing calls_work in_blocks told ranks) ranks
ranks-IsReady = (
  ((λ c. refl), (omega arith), (λ k. backwards-IsComplete (num_blocks 2)), above_pad_first),
  (((λ c. refl), (omega arith), (λ k. backwards-IsComplete (num_blocks 1)), above_pad_second), tt),
)

pub ranks-Agrees :
    All (Agrees max_plus max_plus-IsExact nothing calls_work in_blocks told ranks) ranks
ranks-Agrees = ((refl, refl), ((refl, refl), tt))

all_reduce_softmax-softmax_example :
    (results : List (List Level)) × (map
        (λ ys. all_reduce_softmax max_plus (calls_work ys) (in_blocks ys) nothing (told ys) ys)
        ranks
      ≡ map ok results)
    × (map max_plus.widen (flatten results) ≡ softmax max_plus (map max_plus.widen (flatten ranks)))
all_reduce_softmax-softmax_example =
    all_reduce_softmax-softmax max_plus max_plus-IsExact nothing calls_work in_blocks told ranks
      ranks-IsReady ranks-Agrees
