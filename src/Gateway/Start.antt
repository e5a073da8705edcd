-- ===== src/Gateway/Start.antt =====
-- gateway-rs/src/main.rs: what `main` sets up before it serves.
pub mod Agrees
pub mod Examples
use distributed_softmax.Prelude.{
  ℕ, Bool, true, false, ◌⊎◌, none, some, List, [], ◌++◌, Outcome, ok, err, from_sum, ◌>>=◌, ◌>>◌,
}
use distributed_softmax.Text.{Bytes, bytes, beq}
use distributed_softmax.Sockets.{Setup}
use distributed_softmax.Gateway.Config.{Env, redis_url}
use distributed_softmax.Gateway.SliceNotifier.{Jobs}
use distributed_softmax.Gateway.Publisher.{Channel}
use distributed_softmax.Gateway.Publisher.Endpoints.{
  Transport, zmq, zmq_nccl, world_size, transport_of,
}
use distributed_softmax.Gateway.Publisher.Startup.{new_publisher, new_multi_publisher}

-- `Arc<dyn Publisher>`
pub data Bus : Type 0 where
  single : Channel → Bus
  multi : List Channel → Bus

-- `GatewayService`, with the jobs of its notifier. The Redis manager is the connection.
pub record GatewayService : Type 0 where
  pub publisher : Bus
  pub notifier : Jobs
  pub nccl_dispatch : Bool
  pub ranks : ℕ

abbrev or_default : Env → Bytes → Bytes → Bytes
or_default env key value = elim (env key) [ none ↦ value | some given ↦ given ]

-- What `Client::open`, `ConnectionManager::new` and the parsing of an address answer, and what the
-- publishers' threads meet.
module _ (open_client connect parse_addr : Bytes → Bytes ⊎ Unit {0}) (setup : Bytes → Setup)
    (rank_setup : List Bytes → Bytes → Setup) (env : Env) where
  unfoldable pub new_bus : Transport → Outcome Bytes Bus
  new_bus zmq = new_publisher env setup >>= λ channel. ok (single channel)
  new_bus zmq_nccl =
      new_multi_publisher env rank_setup (world_size env) >>= λ channels. ok (multi channels)

  -- `RedisManager::new`: the connection itself is the Redis server's client.
  unfoldable pub new_redis_manager : Outcome Bytes (Unit {0})
  new_redis_manager = from_sum (open_client (redis_url env)) >> from_sum (connect (redis_url env))

  -- `SliceNotifier::new`, which leaves the connecting to its task.
  unfoldable pub new_notifier : (url : Bytes) → Outcome Bytes Jobs
  new_notifier url = from_sum (open_client url) >> ok []

  -- `main` up to `serve`. The cache manager's task only counts keys and takes no part.
  unfoldable pub start_gateway : Outcome Bytes GatewayService
  start_gateway =
      let transport = or_default env (bytes "TRANSPORT") (bytes "zmq") in
      do
        known ← transport_of transport
        publisher ← new_bus known
        new_redis_manager
        notifier ← new_notifier (redis_url env)
        from_sum (parse_addr (or_default env (bytes "GATEWAY_ADDR") (bytes "0.0.0.0:50051")))
        ok (record {
          publisher = publisher;
          notifier = notifier;
          nccl_dispatch = beq transport (bytes "zmq_nccl");
          ranks = world_size env;
        })
