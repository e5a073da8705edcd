-- ===== src/Worker/Config/Examples.antt =====
-- The worker of rank 2 on a machine of its own.
use distributed_softmax.Prelude.{◌≡◌, refl, none, some, ◌++◌, ok, if◌then◌else◌}
use distributed_softmax.Text.{
  bytes, beq, to_decimal, strip_prefix, parse_uint, parse_some_digits, parse_digits,
}
use distributed_softmax.Gateway.Config.{port_from}
use distributed_softmax.Gateway.Publisher.Endpoints.{
  rank_port, tcp_mode, base_endpoint, rank_endpoint, contains,
}
use distributed_softmax.Worker.Config.{Env, env_i32, env_u32, parse_i32, from_env, nccl, plan}
use distributed_softmax.Worker.Config.Ports.{plan-rank_endpoint}

abbrev worker : Env
worker name =
    if beq name (bytes "TRANSPORT")
    then some (bytes "zmq_nccl")
    else if beq name (bytes "ZMQ_GATEWAY_ADDR")
    then some (bytes "gw")
    else if beq name (bytes "NCCL_RANK")
    then some (bytes "2")
    else none

abbrev gateway : Env
gateway name = if beq name (bytes "ZMQ_BASE_ENDPOINT") then some (bytes "TCP") else none

plan-rank_endpoint_example :
    (plan (from_env worker)
      ≡ ok (
          nccl 2 (env_u32 worker (bytes "NCCL_WORLD_SIZE") 4) (
            bytes "tcp://gw:"
            ++ to_decimal (rank_port (port_from gateway (bytes "ZMQ_BASE_PORT") 5560) 2))))
    × (rank_endpoint gateway 2
        ≡ bytes "tcp://0.0.0.0:"
          ++ to_decimal (rank_port (port_from gateway (bytes "ZMQ_BASE_PORT") 5560) 2))
unfolding beq env_i32 parse_i32 parse_uint parse_some_digits parse_digits tcp_mode base_endpoint
    contains strip_prefix
plan-rank_endpoint_example =
    plan-rank_endpoint worker gateway 2 b'g' (bytes "w") refl refl refl refl refl
