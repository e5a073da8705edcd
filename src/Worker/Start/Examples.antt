-- ===== src/Worker/Start/Examples.antt =====
-- Workers that start with a GPU, without one, and not at all.
use distributed_softmax.Prelude.{◌≡◌, refl, some, Bool, true, false, ◌⊎◌, inl, inr, ok, err, panic}
use distributed_softmax.Prelude.Int.{pos}
use distributed_softmax.Text.{Bytes, bytes, beq}
use distributed_softmax.Sockets.{Setup, thread_ready}
use distributed_softmax.Cuda.{Driver}
use distributed_softmax.Worker.Config.{Config, plan, nccl_plan}
use distributed_softmax.Worker.Gpu.Partial.{init, new_worker}
use distributed_softmax.Worker.Zmq.Connect.{connect_pull}
use distributed_softmax.Worker.Start.{
  serves, joins, start_gpu, start_plan, start_worker, worker_redis_url,
}
use distributed_softmax.Worker.Start.Serves.{Serves, start_worker-Serves}

abbrev works : Driver
works call = inr tt

abbrev succeeds : Bytes → Bytes ⊎ Unit {0}
succeeds text = inr tt

abbrev fails : Bytes → Bytes ⊎ Unit {0}
fails text = inl (bytes "Connection refused")

abbrev fine : Bytes → Setup
fine endpoint = record { spawn = inr tt; socket = inr tt; attach = inr tt; reports = true }

abbrev unconnected : Bytes → Setup
unconnected endpoint = record {
  spawn = inr tt;
  socket = inr tt;
  attach = inl (bytes "Invalid argument");
  reports = true;
}

abbrev with_transport : Bytes → Config
with_transport transport = record {
  transport = transport;
  redis_host = bytes "localhost";
  redis_port = 6379;
  zmq_pull_endpoint = bytes "ipc:///tmp/softmax_2";
  zmq_gateway_addr = bytes "";
  zmq_base_port = 5560;
  nccl_rank = pos 2;
  nccl_world_size = 4;
  num_workers = 8;
  cuda_device = 2;
}

no_redis :
    (cuda : Bool)
    → start_worker cuda works succeeds fails fine (with_transport (bytes "zmq")) ≡ panic
unfolding start_worker
no_redis cuda = refl

bad_endpoint :
    start_worker false works succeeds succeeds unconnected (with_transport (bytes "zmq"))
    ≡ err (bytes "zmq connect ipc:///tmp/softmax_2: Invalid argument")
unfolding start_worker start_gpu plan beq start_plan connect_pull thread_ready worker_redis_url
bad_endpoint = refl

joins_ranks :
    start_worker true works succeeds succeeds fine (with_transport (bytes "zmq_nccl"))
    ≡ ok (joins 2 4 (bytes "ipc:///tmp/softmax_2"))
unfolding start_worker start_gpu plan nccl_plan beq start_plan
joins_ranks = refl

with_gpu :
    start_worker true works succeeds succeeds fine (with_transport (bytes "zmq"))
    ≡ ok (serves (some (record { device_id = 2 })) (bytes "ipc:///tmp/softmax_2") 8)
unfolding start_worker start_gpu init new_worker plan beq start_plan connect_pull thread_ready
with_gpu = refl

start_worker-Serves_example :
    Serves true
      (with_transport (bytes "zmq"))
      (serves (some (record { device_id = 2 })) (bytes "ipc:///tmp/softmax_2") 8)
start_worker-Serves_example =
    start_worker-Serves works succeeds succeeds fine (with_transport (bytes "zmq")) true
      (serves (some (record { device_id = 2 })) (bytes "ipc:///tmp/softmax_2") 8) with_gpu
