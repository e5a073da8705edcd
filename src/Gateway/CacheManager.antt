-- ===== src/Gateway/CacheManager.antt =====
-- gateway-rs/src/cache_manager.rs: `run_cleanup`. The task that calls it only waits in between.
pub mod Counts
pub mod Examples
use distributed_softmax.Prelude.{
  ℕ, ◌+◌, Bool, true, false, List, [], ◌∷◌, ◌++◌, length, ◌==◌, if◌then◌else◌,
}
use distributed_softmax.Prelude.Int.{ℤ, pos, negsuc}
use distributed_softmax.Text.{Bytes, bytes}
use distributed_softmax.Redis.{Redis}
use distributed_softmax.Gateway.RedisManager.{ttl, keys_by_pattern}

-- What the last line logs.
pub record CacheStats : Type 0 where
  pub total_keys : ℕ
  pub result : ℕ
  pub metadata : ℕ
  pub progress : ℕ
  pub expired : ℕ

-- `ttl == -2`, the answer for a key that is not there.
abbrev pub is_gone : ℤ → Bool
is_gone (pos n) = false
is_gone (negsuc n) = n == 1

module _ (R : Redis) where
  -- The loop over the chained keys.
  unfoldable pub expired_loop : R.State → List Bytes → (expired : ℕ) → ℕ
  unfolding ttl
  expired_loop s [] expired = expired
  expired_loop s (key ∷ keys) expired =
      expired_loop s keys (if is_gone (ttl R s key) then expired + 1 else expired)

  -- The three listings and the lifetimes are asked one after the other, and other clients may act in
  -- between: `listed` is the server that each listing finds, and `asked` the one of the lifetimes.
  unfoldable pub run_cleanup :
      (listed_results listed_metadata listed_progress asked : R.State) → CacheStats
  unfolding expired_loop keys_by_pattern
  run_cleanup listed_results listed_metadata listed_progress asked =
      let result_keys = keys_by_pattern R listed_results (bytes "result:*") in
      let metadata_keys = keys_by_pattern R listed_metadata (bytes "metadata:*") in
      let progress_keys = keys_by_pattern R listed_progress (bytes "progress:*") in
      record {
        total_keys = length result_keys + length metadata_keys + length progress_keys;
        result = length result_keys;
        metadata = length metadata_keys;
        progress = length progress_keys;
        expired = expired_loop asked ((result_keys ++ metadata_keys) ++ progress_keys) 0;
      }
