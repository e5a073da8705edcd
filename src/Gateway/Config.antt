-- ===== src/Gateway/Config.antt =====
-- gateway-rs/src/config.rs: `RedisConfig`, the names of the Redis keys, the lifetimes and the URL.
pub mod Keys
pub mod Examples
use distributed_softmax.Prelude.{ℕ, ◌*◌, ◌%◌, ◌^◌, Option, none, some, List, [], ◌∷◌, ◌++◌}
use distributed_softmax.Text.{Bytes, bytes, to_decimal, parse_uint, u16_max, u64_max}
use mathlib.Core.Option

-- `std::env::var`: `none` where the variable is not set, or is not Unicode.
abbrev pub Env : Type 0
Env = Bytes → Option Bytes

-- `env::var(name).ok().and_then(|v| v.parse::<u64>().ok()).map(|h| h * 3600).unwrap_or(default)`.
-- The product wraps, as it does in a release build.
unfoldable pub ttl_from : Env → Bytes → ℕ → ℕ
unfolding Option.bind
ttl_from env name default = elim (Option.bind (env name) (parse_uint u64_max)) [
  | none ↦ default
  | some hours ↦ hours * 3600 % 2 ^ 64
]

unfoldable pub result_ttl : Env → ℕ
result_ttl env = ttl_from env (bytes "REDIS_TTL_HOURS") 3600

unfoldable pub slice_ttl : Env → ℕ
slice_ttl env = ttl_from env (bytes "REDIS_TTL_SLICE_HOURS") 7200

unfoldable pub metadata_ttl : Env → ℕ
metadata_ttl env = ttl_from env (bytes "REDIS_TTL_METADATA_HOURS") 86400

unfoldable pub progress_ttl : Env → ℕ
progress_ttl env = ttl_from env (bytes "REDIS_TTL_PROGRESS_HOURS") 3600

unfoldable pub result_key : Bytes → Bytes
result_key job_id = bytes "result:" ++ job_id

unfoldable pub slice_key : Bytes → ℕ → Bytes
slice_key job_id slice_id = bytes "result:" ++ (job_id ++ (b':' ∷ to_decimal slice_id))

unfoldable pub metadata_key : Bytes → Bytes
metadata_key job_id = bytes "metadata:" ++ job_id

unfoldable pub progress_key : Bytes → Bytes
progress_key job_id = bytes "progress:" ++ job_id

-- `env::var(name).ok().and_then(|p| p.parse().ok()).unwrap_or(default)` at a `u16`.
unfoldable pub port_from : Env → Bytes → ℕ → ℕ
unfolding Option.bind
port_from env name default = elim (Option.bind (env name) (parse_uint u16_max)) [
  | none ↦ default
  | some port ↦ port
]

unfoldable pub redis_host : Env → Bytes
redis_host env = elim (env (bytes "REDIS_HOST")) [ none ↦ bytes "127.0.0.1" | some host ↦ host ]

unfoldable pub redis_url : Env → Bytes
unfolding redis_host
redis_url env =
    let host_port =
      redis_host env ++ (b':' ∷ to_decimal (port_from env (bytes "REDIS_PORT") 6379)) in
    elim (env (bytes "REDIS_PASSWORD")) [
      | some pw ↦ bytes "redis://:" ++ (pw ++ (b'@' ∷ host_port))
      | none ↦ bytes "redis://" ++ host_port
    ]
