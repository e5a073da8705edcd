-- ===== src/Gateway/Start/Examples.antt =====
-- A gateway with an empty environment, one in NCCL mode, and two that do not start.
use distributed_softmax.Prelude.{
  ◌≡◌, refl, none, some, [], ◌⊎◌, inl, inr, err, replicate, true, if◌then◌else◌,
}
use distributed_softmax.Text.{Bytes, bytes, beq}
use distributed_softmax.Sockets.{Setup, thread_ready}
use distributed_softmax.Gateway.Config.{Env, redis_url}
use distributed_softmax.Gateway.Publisher.Endpoints.{
  world_size, transport_of, rank_endpoint, contains, tcp_mode, base_endpoint, rank_port,
}
use distributed_softmax.Gateway.Publisher.Startup.{new_sender, new_senders, new_multi_publisher}
use distributed_softmax.Gateway.Start.{
  multi, new_bus, new_redis_manager, new_notifier, start_gateway,
}
use distributed_softmax.Gateway.Start.Agrees.{Agrees, start_gateway-Agrees}

abbrev succeeds : Bytes → Bytes ⊎ Unit {0}
succeeds text = inr tt

abbrev fails : Bytes → Bytes ⊎ Unit {0}
fails text = inl (bytes "Connection refused")

abbrev fine : Setup
fine = record { spawn = inr tt; socket = inr tt; attach = inr tt; reports = true }

abbrev transport_env : Bytes → Env
transport_env transport k = if beq k (bytes "TRANSPORT") then some transport else none

abbrev nccl_env : Env
nccl_env = transport_env (bytes "zmq_nccl")

unknown_transport :
    start_gateway succeeds succeeds succeeds
      (λ endpoint. fine)
      (λ bound endpoint. fine)
      (transport_env (bytes "nats"))
    ≡ err (bytes "unknown TRANSPORT 'nats' (valid: zmq | zmq_nccl)")
unfolding start_gateway transport_of beq
unknown_transport = refl

no_redis :
    start_gateway succeeds fails succeeds (λ endpoint. fine) (λ bound endpoint. fine) nccl_env
    ≡ err (bytes "Connection refused")
unfolding start_gateway transport_of beq new_bus new_multi_publisher new_senders new_sender
    thread_ready world_size rank_endpoint tcp_mode contains base_endpoint rank_port redis_url
    new_redis_manager new_notifier
no_redis = refl

start_gateway-Agrees_example : Agrees (record {
  publisher = multi (replicate 4 (some []));
  notifier = [];
  nccl_dispatch = true;
  ranks = 4;
})
unfolding start_gateway transport_of beq new_bus new_multi_publisher new_senders new_sender
    thread_ready world_size rank_endpoint tcp_mode contains base_endpoint rank_port redis_url
    new_redis_manager new_notifier
start_gateway-Agrees_example =
    start_gateway-Agrees succeeds succeeds succeeds (λ endpoint. fine) (λ bound endpoint. fine)
      nccl_env
      (record {
        publisher = multi (replicate 4 (some []));
        notifier = [];
        nccl_dispatch = true;
        ranks = 4;
      })
      refl
