-- ===== src/Worker/Gpu/Partial/Examples.antt =====
-- A GPU worker at a concrete slice, and at one whose numbers are all below the padding.
use distributed_softmax.Prelude.{
  ℕ, ◌≡◌, refl, none, some, List, [], ◌∷◌, length, ok, err, inr, arith, ◌%◌, ◌==◌, if◌then◌else◌,
}
use distributed_softmax.Prelude.Int.{pos, negsuc}
use distributed_softmax.Text.{bytes, to_decimal}
use distributed_softmax.Floats.Singles.{maximum32}
use distributed_softmax.Floats.Sums.{maximum}
use distributed_softmax.Floats.MaxPlus.{Level, max_plus, max_plus-IsExact}
use distributed_softmax.Cuda.{Kernel, Driver, Schedule, num_blocks, block_size}
use distributed_softmax.Cuda.Backwards.{backwards, backwards-IsComplete}
use distributed_softmax.Worker.Softmax.{softmax_partial}
use distributed_softmax.Worker.Gpu.Kernels.{device_max}
use distributed_softmax.Worker.Gpu.Device.{device_max-padded}
use distributed_softmax.Worker.Gpu.Partial.{new_worker, init, compute_gpu}
use distributed_softmax.Worker.Gpu.Partial.Exact.{compute_gpu-softmax_partial}

abbrev calls_work : Driver
calls_work c = inr tt

abbrev in_blocks : ℕ → Kernel → Schedule
in_blocks n k = backwards (num_blocks n)

abbrev nothing : ℕ → Level
nothing i = none

abbrev slice : List Level
slice = some (pos 3) ∷ some (negsuc 4) ∷ some (pos 5) ∷ []

abbrev low_slice : List Level
low_slice = some (negsuc 200) ∷ some (negsuc 300) ∷ []

above_pad :
    max_plus.max (maximum max_plus slice) (max_plus.widen max_plus.pad32) ≡ maximum max_plus slice
unfolding maximum
above_pad = refl

second_init :
    init calls_work 1 (some (record { device_id = 0 }))
    ≡ (err (bytes "GPU worker already initialized"), some (record { device_id = 0 }))
unfolding init new_worker to_decimal
second_init = refl

compute_gpu-softmax_partial_example :
    compute_gpu max_plus calls_work (in_blocks 3) nothing (some (record { device_id = 0 })) slice
    ≡ ok (softmax_partial max_plus slice)
compute_gpu-softmax_partial_example =
    compute_gpu-softmax_partial max_plus max_plus-IsExact (in_blocks 3) nothing calls_work
      (λ c. refl) (record { device_id = 0 }) slice (omega arith) (omega arith)
      (λ k. backwards-IsComplete (num_blocks 3)) above_pad

device_max-padded_example : device_max max_plus (in_blocks 2) nothing low_slice ≡ (
    if length low_slice % block_size == 0
    then maximum32 max_plus low_slice
    else max_plus.max32 (maximum32 max_plus low_slice) max_plus.pad32)
device_max-padded_example =
    device_max-padded max_plus max_plus-IsExact (in_blocks 2) nothing low_slice (omega arith)
      (λ k. backwards-IsComplete (num_blocks 2))
