-- ===== src/Gateway/Config/Examples.antt =====
-- Keys at concrete jobs.
use distributed_softmax.Prelude.{ℕ, ◌≡◌, ◌↔◌, refl, ◌∷◌, ◌++◌}
use distributed_softmax.Text.{bytes, to_decimal, to_decimal_loop}
use distributed_softmax.Gateway.Config.{result_key, slice_key}
use distributed_softmax.Gateway.Config.Keys.{slice_key_injective, result_key-eq-slice_key}

slice_key_runs : slice_key (bytes "job-1") 12 ≡ bytes "result:job-1:12"
unfolding slice_key to_decimal to_decimal_loop
slice_key_runs = refl

slice_key_injective_example : (bytes "a" ≡ bytes "a") × (◌≡◌ {A = ℕ} 7 7)
slice_key_injective_example = slice_key_injective (bytes "a") (bytes "a") 7 7 refl

result_key-eq-slice_key_example :
    (result_key (bytes "a:0") ≡ slice_key (bytes "a") 0)
    ↔ (bytes "a:0" ≡ bytes "a" ++ (b':' ∷ to_decimal 0))
result_key-eq-slice_key_example = result_key-eq-slice_key (bytes "a:0") (bytes "a") 0

-- The final result of job `a:0` is stored under the key of slice 0 of job `a`.
keys_collide : result_key (bytes "a:0") ≡ slice_key (bytes "a") 0
unfolding to_decimal to_decimal_loop
keys_collide = result_key-eq-slice_key_example.1 refl
