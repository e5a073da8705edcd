-- ===== src/Worker/Config.antt =====
-- worker-rs/src/main.rs: `Config::from_env` with its helpers, and the choice of a transport.
pub mod Ports
pub mod Examples
use distributed_softmax.Prelude.{
  ℕ, zero, suc, ◌+◌, ◌-◌, ◌*◌, ◌%◌, ◌^◌, Bool, true, false, not, ◌&&◌, Option, none, some, List, [],
  ◌∷◌, ◌++◌, ◌==◌, if◌then◌else◌, Outcome, ok, err,
}
use mathlib.Core.Option
use distributed_softmax.Prelude.Int.{ℤ, pos, negsuc}
use distributed_softmax.Text.{
  Bytes, bytes, beq, to_decimal, parse_uint, parse_some_digits, u16_max, u32_max, usize_max,
}

abbrev pub Env : Type 0
Env = Bytes → Option Bytes

abbrev or_else {ℓ} : {A : Type ℓ} → Option A → A → A
or_else none d = d
or_else (some a) d = a

abbrev negated : ℕ → ℤ
negated zero = pos 0
negated (suc n) = negsuc n

-- `v.parse::<i32>()`
unfoldable pub parse_i32 : Bytes → Option ℤ
parse_i32 [] = none
parse_i32 (c ∷ s) =
    if c == b'-'
    then Option.map negated (parse_some_digits (2 ^ 31) s)
    else Option.map (λ n. pos n) (parse_uint (2 ^ 31 - 1) (c ∷ s))

unfoldable pub env_u16 : Env → Bytes → ℕ → ℕ
unfolding Option.bind
env_u16 env k d = or_else (Option.bind (env k) (parse_uint u16_max)) d

unfoldable pub env_i32 : Env → Bytes → ℤ → ℤ
unfolding Option.bind parse_i32
env_i32 env k d = or_else (Option.bind (env k) parse_i32) d

unfoldable pub env_u32 : Env → Bytes → ℕ → ℕ
unfolding Option.bind
env_u32 env k d = or_else (Option.bind (env k) (parse_uint u32_max)) d

unfoldable pub env_usize : Env → Bytes → ℕ → ℕ
unfolding Option.bind
env_usize env k d = or_else (Option.bind (env k) (parse_uint usize_max)) d

pub record Config : Type 0 where
  pub transport : Bytes
  pub redis_host : Bytes
  pub redis_port : ℕ
  pub zmq_pull_endpoint : Bytes
  pub zmq_gateway_addr : Bytes
  pub zmq_base_port : ℕ
  pub nccl_rank : ℤ
  pub nccl_world_size : ℕ
  pub num_workers : ℕ
  pub cuda_device : ℕ

-- `format!("tcp://{}:{}", addr, base_port + rank as u16)`; the sum wraps in a release build.
unfoldable pub gateway_endpoint : (addr : Bytes) (base_port rank : ℕ) → Bytes
gateway_endpoint addr base_port rank =
    bytes "tcp://" ++ (addr ++ (bytes ":" ++ to_decimal ((base_port + rank % 2 ^ 16) % 2 ^ 16)))

unfoldable pub own_endpoint : Env → Bytes
own_endpoint env = or_else (env (bytes "ZMQ_PULL_ENDPOINT")) (bytes "ipc:///tmp/softmax_tasks")

unfoldable pub pull_endpoint : Env → (addr : Bytes) (base_port : ℕ) → ℤ → Bytes
unfolding gateway_endpoint own_endpoint
pull_endpoint env addr base_port (negsuc n) = own_endpoint env
pull_endpoint env addr base_port (pos rank) =
    if not (beq addr []) then gateway_endpoint addr base_port rank else own_endpoint env

abbrev pub rank_device : ℤ → ℕ
rank_device (pos n) = n
rank_device (negsuc n) = 0

unfoldable pub from_env : Env → Config
unfolding env_u16 env_i32 env_u32 env_usize pull_endpoint Option.bind
from_env env =
    let nccl_rank = env_i32 env (bytes "NCCL_RANK") (negsuc 0) in
    let zmq_gateway_addr = or_else (env (bytes "ZMQ_GATEWAY_ADDR")) [] in
    let zmq_base_port = env_u16 env (bytes "ZMQ_BASE_PORT") 5560 in
    record {
      transport = or_else (env (bytes "TRANSPORT")) (bytes "zmq");
      redis_host = or_else (env (bytes "REDIS_HOST")) (bytes "localhost");
      redis_port = env_u16 env (bytes "REDIS_PORT") 6379;
      zmq_pull_endpoint = pull_endpoint env zmq_gateway_addr zmq_base_port nccl_rank;
      zmq_gateway_addr = zmq_gateway_addr;
      zmq_base_port = zmq_base_port;
      nccl_rank = nccl_rank;
      nccl_world_size = env_u32 env (bytes "NCCL_WORLD_SIZE") 4;
      num_workers = env_usize env (bytes "NUM_WORKERS") 4;
      cuda_device =
          or_else (Option.bind (env (bytes "CUDA_DEVICE")) (parse_uint usize_max))
            (rank_device nccl_rank);
    }

-- What `main` runs: `transport::zmq::run`, or `run_nccl`.
pub data Plan : Type 0 where
  pull : (endpoint : Bytes) (max_concurrent : ℕ) → Plan
  nccl : (rank world_size : ℕ) (endpoint : Bytes) → Plan

unfoldable pub nccl_plan : Config → ℤ → Outcome Bytes Plan
unfolding gateway_endpoint
nccl_plan cfg (negsuc n) = err (bytes "NCCL_RANK must be >= 0 for zmq_nccl transport")
nccl_plan cfg (pos rank) = ok (
    nccl rank cfg.nccl_world_size (
      if not (beq cfg.zmq_gateway_addr [])
      then gateway_endpoint cfg.zmq_gateway_addr cfg.zmq_base_port rank
      else cfg.zmq_pull_endpoint))

unfoldable pub plan : Config → Outcome Bytes Plan
unfolding nccl_plan
plan cfg =
    if beq cfg.transport (bytes "zmq")
    then ok (pull cfg.zmq_pull_endpoint cfg.num_workers)
    else if beq cfg.transport (bytes "zmq_nccl")
    then nccl_plan cfg cfg.nccl_rank
    else err (bytes "unknown TRANSPORT '" ++ (cfg.transport ++ bytes "' (valid: zmq | zmq_nccl)"))
