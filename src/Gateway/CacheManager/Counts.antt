-- ===== src/Gateway/CacheManager/Counts.antt =====
-- What the logged numbers say of one another.
use distributed_softmax.Prelude.{
  ℕ, ◌+◌, ◌≤◌, ◌≡◌, List, [], ◌∷◌, ◌++◌, length, length-append, arith, Bool-cases, inl, inr,
}
use distributed_softmax.Text.{Bytes, bytes}
use distributed_softmax.Redis.{Redis}
use distributed_softmax.Gateway.RedisManager.{ttl, keys_by_pattern}
use distributed_softmax.Gateway.CacheManager.{is_gone, expired_loop, run_cleanup}

module _ (R : Redis) where
  expired_loop-le :
      (s : R.State) (keys : List Bytes) (n : ℕ) → expired_loop R s keys n ≤ n + length keys
  unfolding expired_loop
  expired_loop-le s [] n = omega arith
  expired_loop-le s (key ∷ keys) n = elim (Bool-cases (is_gone (ttl R s key))) [
    | inl gone ↦ rw (gone, expired_loop) (omega (arith, expired_loop-le s keys (n + 1)))
    | inr there ↦ rw (there, expired_loop) (omega (arith, expired_loop-le s keys n))
  ]

  -- Whatever the server answers, no more keys are counted as expired than were listed, and where the
  -- servers of the listings list nothing, nothing is counted.
  run_cleanup_lem :
      (a b c d : R.State)
      → ((run_cleanup R a b c d).expired ≤ (run_cleanup R a b c d).total_keys)
        × ((run_cleanup R a b c d).total_keys ≡ 0 → (run_cleanup R a b c d).expired ≡ 0)
  unfolding run_cleanup
  run_cleanup_lem a b c d = (bound, λ none_listed. omega (arith, bound))
    where
      results : List Bytes
      results = keys_by_pattern R a (bytes "result:*")

      metadata : List Bytes
      metadata = keys_by_pattern R b (bytes "metadata:*")

      progress : List Bytes
      progress = keys_by_pattern R c (bytes "progress:*")

      bound :
          expired_loop R d ((results ++ metadata) ++ progress) 0
          ≤ length results + length metadata + length progress
      bound = omega (
        arith,
        expired_loop-le d ((results ++ metadata) ++ progress) 0,
        length-append (results ++ metadata) progress,
        length-append results metadata,
      )
