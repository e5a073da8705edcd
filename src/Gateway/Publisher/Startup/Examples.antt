-- ===== src/Gateway/Publisher/Startup/Examples.antt =====
-- A gateway whose environment is empty, and a machine on which every endpoint can be bound once.
use distributed_softmax.Prelude.{
  ◌≡◌, refl, none, some, List, [], ◌∷◌, inl, inr, ok, err, replicate, arith, true, if◌then◌else◌,
}
use distributed_softmax.Text.{Bytes, bytes, beq}
use distributed_softmax.Sockets.{Setup, thread_ready}
use distributed_softmax.Gateway.Config.{Env}
use distributed_softmax.Gateway.Publisher.Startup.{
  push_endpoint, new_publisher, new_multi_publisher,
}
use distributed_softmax.Gateway.Publisher.Startup.Binds.{is_bound, new_multi_publisher_lem}

abbrev no_env : Env
no_env k = none

abbrev machine : List Bytes → Bytes → Setup
machine bound endpoint = record {
  spawn = inr tt;
  socket = inr tt;
  attach = if is_bound bound endpoint then inl (bytes "Address already in use") else inr tt;
  reports = true;
}

in_use :
    new_publisher no_env (machine (bytes "ipc:///tmp/softmax_tasks" ∷ []))
    ≡ err (bytes "zmq bind 'ipc:///tmp/softmax_tasks' failed: Address already in use")
unfolding new_publisher push_endpoint thread_ready beq
in_use = refl

new_multi_publisher_lem_example :
    new_multi_publisher no_env machine 300 ≡ ok (replicate 300 (some []))
new_multi_publisher_lem_example =
    new_multi_publisher_lem no_env machine
      (λ bound endpoint. (refl, refl, refl, λ free. rw free refl)) 300 (omega arith)
