-- ===== src/Worker/Nccl/Examples.antt =====
-- A round of a rank on its own, which agrees with itself.
use distributed_softmax.Prelude.{◌≡◌, refl, true, List, [], inl, Outcome, ok}
use distributed_softmax.Text.{Bytes, bytes, beq}
use distributed_softmax.Floats.FixedPoint.{fixed_point}
use distributed_softmax.Json.{Parser}
use distributed_softmax.Redis.Memory.{memory}
use distributed_softmax.Worker.Handler.Task.{TaskMessage, write_result, logged_id, is_char_boundary}
use distributed_softmax.Worker.Handler.Task.Examples.{task, accepts}
use distributed_softmax.Worker.Nccl.{nccl_round, reduce_round, finish_round}

abbrev pub no_json : Parser fixed_point.F64
no_json raw = inl (bytes "expected value")

abbrev alone : List fixed_point.F32 → Outcome Bytes (List fixed_point.F32)
alone xs = ok xs

abbrev rank_task : TaskMessage fixed_point.F64
rank_task = task (bytes "j1")

abbrev after : memory.State
after = (nccl_round fixed_point memory true (accepts (bytes "j1")) alone [] ([], [])).1

round_done :
    nccl_round fixed_point memory true (accepts (bytes "j1")) alone [] ([], []) ≡ (ok tt, after)
unfolding nccl_round reduce_round finish_round write_result logged_id is_char_boundary beq
round_done = refl
