-- ===== src/Worker/Handler/Task/Examples.antt =====
-- A task of three numbers, done on a server that holds nothing, and tasks that are refused.
use distributed_softmax.Prelude.{
  true, ◌≡◌, ◌≢◌, ◌↔◌, List, refl, false, [], ◌∷◌, inr, ◌⊎◌, ok, panic,
}
use distributed_softmax.Text.{Bytes, bytes, beq}
use distributed_softmax.Floats.FixedPoint.{fixed_point, word64}
use distributed_softmax.Redis.Memory.{memory, memory-IsStore}
use distributed_softmax.Worker.Softmax.{PartialStats, softmax_partial}
use distributed_softmax.Worker.Handler.Encode.{encode_partial}
use distributed_softmax.Worker.Handler.Task.{
  TaskMessage, compute_cpu, write_result, check_task, logged_id, is_char_boundary, handle_task,
}
use distributed_softmax.Worker.Handler.Task.Panics.{PanicsLate, handle_task-panic}

abbrev pub task : Bytes → TaskMessage fixed_point.F64
task job_id = record {
  job_id = job_id;
  slice_id = 2;
  task = bytes "softmax";
  «data» = word64 512 ∷ word64 256 ∷ [];
}

abbrev pub accepts : Bytes → Bytes → Bytes ⊎ TaskMessage fixed_point.F64
accepts job_id raw = inr (task job_id)

abbrev pub state_after : Bytes → memory.State
state_after job_id =
    (handle_task fixed_point memory true (accepts job_id) (compute_cpu fixed_point) [] ([], [])).1

pub task_done :
    handle_task fixed_point memory true (accepts (bytes "j1")) (compute_cpu fixed_point) [] ([], [])
    ≡ (ok tt, state_after (bytes "j1"))
unfolding handle_task check_task beq compute_cpu write_result logged_id is_char_boundary
task_done = refl

-- `job-123é`: the byte at index 8 is the second one of its last character.
abbrev accented : Bytes
accented = 106 ∷ 111 ∷ 98 ∷ 45 ∷ 49 ∷ 50 ∷ 51 ∷ 0xC3 ∷ 0xA9 ∷ []

abbrev accented_stats : PartialStats fixed_point
accented_stats = softmax_partial fixed_point (task accented).«data»

abbrev accented_after : memory.State
accented_after =
    (write_result fixed_point memory accented 2 (encode_partial fixed_point accented_stats)
      ([], [])).1

compute_calm : (xs : List fixed_point.F64) → compute_cpu fixed_point xs ≢ panic
unfolding compute_cpu
compute_calm xs = λ h. cc

handle_task-panic_example :
    (handle_task fixed_point memory true (accepts accented) (compute_cpu fixed_point) [] ([], [])
      ≡ (panic, accented_after))
    ↔ PanicsLate fixed_point memory memory-IsStore true
        (accepts accented)
        (compute_cpu fixed_point)
        []
        ([], [])
        accented_after
handle_task-panic_example =
    handle_task-panic fixed_point memory memory-IsStore true (accepts accented)
      (compute_cpu fixed_point) compute_calm [] ([], []) accented_after

accented_panics :
    handle_task fixed_point memory true (accepts accented) (compute_cpu fixed_point) [] ([], [])
    ≡ (panic, accented_after)
unfolding handle_task check_task beq compute_cpu write_result logged_id is_char_boundary
accented_panics = refl

accented_unlogged :
    handle_task fixed_point memory false (accepts accented) (compute_cpu fixed_point) [] ([], [])
    ≡ (ok tt, accented_after)
unfolding handle_task check_task beq compute_cpu write_result logged_id is_char_boundary
accented_unlogged = refl
