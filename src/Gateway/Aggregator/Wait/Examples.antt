-- ===== src/Gateway/Aggregator/Wait/Examples.antt =====
-- Waiting for three slices, of which slice `i` can be read from round `i` on, and in vain for a fourth.
use distributed_softmax.Prelude.{
  ℕ, ◌*◌, ◌≡◌, ◌≢◌, refl, arith, Option, none, some, List, [], ◌∷◌, leb, if◌then◌else◌, Outcome, ok,
  err, panic,
}
use distributed_softmax.Text.{Bytes, bytes}
use distributed_softmax.Gateway.Aggregator.Wait.{
  none_held, keep_slice, read_pass, wait_loop, wait_for_all_slices, timeout_message,
}
use distributed_softmax.Gateway.Aggregator.Wait.Result.{
  AllRead, Answer, wait_for_all_slices-Answer, wait_for_all_slices_complete,
}

abbrev job : Bytes
job = bytes "job"

abbrev read : ℕ → ℕ → Outcome Bytes (Option ℕ)
read k i =
    if leb i 2
    then (if leb i k then ok (some (i * 10)) else ok none)
    else err (bytes "connection lost")

abbrev clock : ℕ → ℕ
clock k = k * 100

read_calm : (k i : ℕ) → read k i ≢ panic
read_calm k i = ground arith

three_slices_run : wait_for_all_slices read clock job 3 500 6 7 ≡ some (ok (0 ∷ 10 ∷ 20 ∷ []))
unfolding wait_for_all_slices wait_loop read_pass keep_slice none_held
three_slices_run = refl

four_slices_run : wait_for_all_slices read clock job 4 500 6 7 ≡ some (err (timeout_message job))
unfolding wait_for_all_slices wait_loop read_pass keep_slice none_held
four_slices_run = refl

wait_for_all_slices-Answer_example :
    Answer read clock job 4 500 (wait_for_all_slices read clock job 4 500 6 7)
wait_for_all_slices-Answer_example =
    wait_for_all_slices-Answer read clock job 4 500 (omega arith) read_calm 5 (omega arith) 6 7
      (omega arith)

wait_for_all_slices_complete_example :
    (stats : List ℕ) × (wait_for_all_slices read clock job 3 500 6 7 ≡ some (ok stats))
    × AllRead read clock job 3 500 stats
wait_for_all_slices_complete_example =
    wait_for_all_slices_complete read clock job 3 500 (omega arith) read_calm 5 (omega arith) 6 7 2
      (omega arith) (λ j lt. omega arith) (λ i below. (2, i * 10, omega arith, ground arith))
