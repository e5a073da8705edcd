-- ===== src/Gateway/Aggregator/ReadSlice/Examples.antt =====
-- The gateway reads the slice of the worker's example.
use distributed_softmax.Prelude.{true, ◌≡◌, refl, some, [], ◌∷◌, inl, ok, arith}
use distributed_softmax.Text.{bytes}
use distributed_softmax.Floats.FixedPoint.{fixed_point, fixed_point-IsBitExact, word64}
use distributed_softmax.Wire.{little}
use distributed_softmax.Json.{Parser}
use distributed_softmax.Redis.Memory.{memory, memory-IsStore}
use distributed_softmax.Worker.Softmax.{softmax_partial}
use distributed_softmax.Worker.Handler.Task.{compute_cpu}
use distributed_softmax.Worker.Handler.Task.Examples.{task, accepts, state_after, task_done}
use distributed_softmax.Gateway.Aggregator.Cpu.Exact.{received}
use distributed_softmax.Gateway.Aggregator.ReadSlice.{read_slice, read_slice-handle_task}

abbrev no_json : Parser fixed_point.F64
no_json raw = inl (bytes "expected value")

read_slice-handle_task_example :
    read_slice fixed_point memory no_json little (state_after (bytes "j1")) (bytes "j1") 2
    ≡ ok (some (received fixed_point (softmax_partial fixed_point (word64 512 ∷ word64 256 ∷ []))))
unfolding compute_cpu
read_slice-handle_task_example =
    read_slice-handle_task fixed_point memory no_json fixed_point-IsBitExact memory-IsStore true
      (accepts (bytes "j1")) (compute_cpu fixed_point) [] (task (bytes "j1")) ([], [])
      (state_after (bytes "j1")) refl (omega arith) refl task_done
