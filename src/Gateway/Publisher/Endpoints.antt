-- ===== src/Gateway/Publisher/Endpoints.antt =====
-- gateway-rs/src/publisher/zmq.rs: the endpoints that `ZmqMultiPublisher::new` binds, one for each rank;
-- and gateway-rs/src/main.rs: which publisher is used.
use distributed_softmax.Prelude.{
  ℕ, ◌+◌, ◌%◌, ◌^◌, Bool, true, false, ◌&&◌, none, some, [], ◌∷◌, ◌++◌, map, leb, ltb,
  if◌then◌else◌, Outcome, ok, err,
}
use mathlib.Core.Option
use distributed_softmax.Text.{Bytes, bytes, beq, strip_prefix, to_decimal, parse_uint, usize_max}
use distributed_softmax.Gateway.Config.{Env, port_from}

-- `base_port + rank as u16`, which wraps in a release build.
unfoldable pub rank_port : (base_port rank : ℕ) → ℕ
rank_port base_port rank = (base_port + rank % 2 ^ 16) % 2 ^ 16

abbrev pub lower : ℕ → ℕ
lower c = if leb b'A' c && leb c b'Z' then c + 32 else c

abbrev is_prefix : Bytes → Bytes → Bool
is_prefix p s = elim (strip_prefix p s) [ none ↦ false | some rest ↦ true ]

-- `s.contains(part)`, for a part that is not empty.
unfoldable pub contains : (part s : Bytes) → Bool
unfolding strip_prefix
contains part [] = false
contains part (c ∷ s) =
    let later = contains part s in if is_prefix part (c ∷ s) then true else later

-- `base.to_lowercase().contains("tcp")`. No character beyond ASCII has a lower case in "tcp".
unfoldable pub tcp_mode : Bytes → Bool
unfolding contains
tcp_mode base = contains (bytes "tcp") (map lower base)

unfoldable pub base_endpoint : Env → Bytes
base_endpoint env = elim (env (bytes "ZMQ_BASE_ENDPOINT")) [
  | none ↦ bytes "ipc:///tmp/softmax"
  | some base ↦ base
]

unfoldable pub rank_endpoint : Env → (rank : ℕ) → Bytes
unfolding tcp_mode base_endpoint rank_port
rank_endpoint env rank =
    let base = base_endpoint env in
    if tcp_mode base
    then bytes "tcp://0.0.0.0:"
      ++ to_decimal (rank_port (port_from env (bytes "ZMQ_BASE_PORT") 5560) rank)
    else base ++ (bytes "_" ++ to_decimal rank)

-- The publishers that `main` knows.
pub data Transport : Type 0 where
  zmq : Transport
  zmq_nccl : Transport

unfoldable pub world_size : Env → ℕ
unfolding Option.bind
world_size env = elim (Option.bind (env (bytes "NCCL_WORLD_SIZE")) (parse_uint usize_max)) [
  | none ↦ 4
  | some n ↦ if ltb 0 n then n else 4
]

unfoldable pub transport_of : Bytes → Outcome Bytes Transport
transport_of name =
    if beq name (bytes "zmq")
    then ok zmq
    else if beq name (bytes "zmq_nccl")
    then ok zmq_nccl
    else err (bytes "unknown TRANSPORT '" ++ (name ++ bytes "' (valid: zmq | zmq_nccl)"))
