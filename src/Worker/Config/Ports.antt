-- ===== src/Worker/Config/Ports.antt =====
-- Whether the workers in NCCL mode meet the gateway's sockets.
use distributed_softmax.Prelude.{ℕ, ◌≡◌, refl, true, Option-cases, some, ◌∷◌, ◌++◌, inl, inr, ok}
use distributed_softmax.Prelude.Int.{pos, negsuc}
use mathlib.Core.Option
use distributed_softmax.Text.{Bytes, bytes, beq, to_decimal, parse_uint, u16_max}
use distributed_softmax.Gateway.Config.{port_from}
use distributed_softmax.Gateway.Publisher.Endpoints.{
  rank_port, tcp_mode, base_endpoint, rank_endpoint,
}
use distributed_softmax.Worker.Config.{
  Env, env_u16, env_i32, env_u32, gateway_endpoint, from_env, nccl, nccl_plan, plan,
}

env_u16-port_from : (w g : Env) (k : Bytes) (d : ℕ) → w k ≡ g k → env_u16 w k d ≡ port_from g k d
unfolding env_u16 port_from
env_u16-port_from w g k d same = elim (Option-cases (Option.bind (g k) (parse_uint u16_max))) [
  | inl e ↦ rw (same, e, env_u16, port_from) refl
  | inr (n, e) ↦ rw (same, e, env_u16, port_from) refl
]

gateway_endpoint_lem :
    (addr : Bytes) (base rank : ℕ)
    → gateway_endpoint addr base rank
      ≡ bytes "tcp://" ++ (addr ++ (bytes ":" ++ to_decimal (rank_port base rank)))
unfolding gateway_endpoint rank_port
gateway_endpoint_lem addr base rank = refl

module _ (worker gateway : Env) (rank c : ℕ) (addr : Bytes) where
  abbrev port : ℕ
  port = rank_port (port_from gateway (bytes "ZMQ_BASE_PORT") 5560) rank

  -- A worker whose transport is zmq_nccl, whose rank is not negative and that is told the gateway's
  -- address connects to that address at just the port that a gateway in TCP mode binds for the rank,
  -- where the two have the same ZMQ_BASE_PORT, or neither has one.
  pub plan-rank_endpoint :
      worker (bytes "TRANSPORT") ≡ some (bytes "zmq_nccl")
      → worker (bytes "ZMQ_GATEWAY_ADDR") ≡ some (c ∷ addr)
      → env_i32 worker (bytes "NCCL_RANK") (negsuc 0) ≡ pos rank
      → worker (bytes "ZMQ_BASE_PORT") ≡ gateway (bytes "ZMQ_BASE_PORT")
      → tcp_mode (base_endpoint gateway) ≡ true
      → (plan (from_env worker)
          ≡ ok (
              nccl rank
                (env_u32 worker (bytes "NCCL_WORLD_SIZE") 4)
                (bytes "tcp://" ++ ((c ∷ addr) ++ (bytes ":" ++ to_decimal port)))))
        × (rank_endpoint gateway rank ≡ bytes "tcp://0.0.0.0:" ++ to_decimal port)
  unfolding plan from_env rank_endpoint beq nccl_plan
  plan-rank_endpoint transport address own same_base tcp = (
    rw (transport, own)
        (rw
          (
            address,
            env_u16-port_from worker gateway (bytes "ZMQ_BASE_PORT") 5560 same_base,
            gateway_endpoint_lem (c ∷ addr) (port_from gateway (bytes "ZMQ_BASE_PORT") 5560) rank,
            nccl_plan,
          )
          refl),
    rw (tcp, rank_endpoint) refl,
  )
