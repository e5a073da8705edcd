-- ===== src/Gateway/CacheManager/Examples.antt =====
-- A key that was listed and is gone when its lifetime is asked.
use distributed_softmax.Prelude.{◌≡◌, refl, none, [], ◌∷◌}
use distributed_softmax.Text.{bytes}
use distributed_softmax.Redis.Memory.{memory}
use distributed_softmax.Gateway.CacheManager.{run_cleanup, expired_loop}

abbrev listed : memory.State
listed = ((bytes "result:j1", bytes "[]", none) ∷ [], [])

-- The server lists all its keys under every pattern, and has none of them any more when it is asked.
all_expired : (run_cleanup memory listed listed listed ([], [])).expired ≡ 3
unfolding run_cleanup expired_loop
all_expired = refl
