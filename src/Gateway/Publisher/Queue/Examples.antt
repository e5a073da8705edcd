-- ===== src/Gateway/Publisher/Queue/Examples.antt =====
-- Three payloads, of which the socket refuses one, and a fourth that comes after the thread has died.
use distributed_softmax.Prelude.{◌≡◌, refl, true, false, inl, inr, List, [], ◌∷◌, ◌++◌}
use distributed_softmax.Text.{bytes, to_decimal}
use distributed_softmax.Gateway.Publisher.Queue.{
  single_push, rank_push, pipe, send, send_round, Action, publishes, answers, dies, opened,
  on_action, run_push,
}
use distributed_softmax.Gateway.Publisher.Queue.Delivers.{Delivers, run_push-Delivers}

abbrev history : List Action
history =
    publishes (bytes "a")
    ∷ publishes (bytes "b")
    ∷ answers (inl (bytes "Interrupted system call"))
    ∷ publishes (bytes "c")
    ∷ answers (inr tt)
    ∷ []

refused_and_sent : run_push single_push history opened ≡ (
  bytes "a" ∷ bytes "b" ∷ bytes "c" ∷ [],
  pipe
      (bytes "c" ∷ [])
      ((bytes "a", inl (bytes "Interrupted system call")) ∷ (bytes "b", inr tt) ∷ [])
      (bytes "ZMQ send error: Interrupted system call" ∷ [])
      true,
)
unfolding run_push on_action send send_round
refused_and_sent = refl

too_late :
    run_push single_push (dies ∷ publishes (bytes "d") ∷ []) opened ≡ ([], pipe [] [] [] false)
unfolding run_push on_action send send_round
too_late = refl

run_push-Delivers_example :
    Delivers single_push 50000 (bytes "ZMQ send error: ") history (inr tt ∷ []) (bytes "d")
    × Delivers
        (rank_push 3)
        100000
        (bytes "ZMQ rank " ++ (to_decimal 3 ++ bytes " send error: "))
        history
        (inr tt ∷ [])
        (bytes "d")
run_push-Delivers_example = run_push-Delivers history (inr tt ∷ []) (bytes "d") 3
