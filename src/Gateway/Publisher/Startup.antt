-- ===== src/Gateway/Publisher/Startup.antt =====
-- gateway-rs/src/publisher/zmq.rs: `new` of both publishers, up to the loops of their threads.
pub mod Binds
pub mod Examples
use distributed_softmax.Prelude.{
  ℕ, zero, suc, ◌⊎◌, none, some, List, [], ◌∷◌, ◌++◌, Outcome, ok, ◌>>=◌, ◌>>◌, from_sum,
}
use distributed_softmax.Text.{Bytes, bytes, to_decimal}
use distributed_softmax.Sockets.{Setup, thread_ready}
use distributed_softmax.Gateway.Config.{Env}
use distributed_softmax.Gateway.Publisher.{Channel}
use distributed_softmax.Gateway.Publisher.Endpoints.{rank_endpoint}

unfoldable pub push_endpoint : Env → Bytes
push_endpoint env = elim (env (bytes "ZMQ_PUSH_ENDPOINT")) [
  | none ↦ bytes "ipc:///tmp/softmax_tasks"
  | some endpoint ↦ endpoint
]

-- `ZmqPublisher::new`, with what its thread meets when it binds an endpoint.
unfoldable pub new_publisher : Env → (setup : Bytes → Setup) → Outcome Bytes Channel
new_publisher env setup =
    let endpoint = push_endpoint env in
    do
      from_sum (setup endpoint).spawn
      thread_ready (setup endpoint) (bytes "zmq socket error: ")
          (bytes "zmq bind '" ++ (endpoint ++ bytes "' failed: "))
          (bytes "ZMQ publisher thread died unexpectedly")
      ok (some [])

module _ (env : Env) (setup : (bound : List Bytes) → Bytes → Setup) where
  -- The body of the loop over the ranks, with what a rank's thread meets when it binds an endpoint
  -- after those that the ranks before it have bound.
  unfoldable pub new_sender : (bound : List Bytes) → (rank : ℕ) → Outcome Bytes Channel
  new_sender bound rank =
      let endpoint = rank_endpoint env rank in
      do
        from_sum (setup bound endpoint).spawn
        thread_ready (setup bound endpoint) (bytes "zmq socket: ")
            (bytes "zmq bind '" ++ (endpoint ++ bytes "': "))
            (bytes "ZMQ publisher thread for rank " ++ (to_decimal rank ++ bytes " died"))
        ok (some [])

  -- The ranks from `rank` on.
  unfoldable pub new_senders : (left rank : ℕ) (bound : List Bytes) → Outcome Bytes (List Channel)
  new_senders zero rank bound = ok []
  new_senders (suc left) rank bound = do
    sender ← new_sender bound rank
    senders ← new_senders left (suc rank) (rank_endpoint env rank ∷ bound)
    ok (sender ∷ senders)

  -- `ZmqMultiPublisher::new`
  unfoldable pub new_multi_publisher : (world_size : ℕ) → Outcome Bytes (List Channel)
  new_multi_publisher world_size = new_senders world_size 0 []
