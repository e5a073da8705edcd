-- ===== src/Worker/Zmq/Examples.antt =====
-- A worker with one permit that has received a message.
use distributed_softmax.Prelude.{◌+◌, ◌≤◌, ◌≡◌, length, none, [], ◌∷◌, arith}
use distributed_softmax.Text.{Bytes, bytes}
use distributed_softmax.Worker.Zmq.{
  State, at, take_message, spawn_task, receive, work, Reachable, first, next, Works,
}
use distributed_softmax.Worker.Zmq.Ends.{
  Lives, born, lives, goes_on, fails, returns, returned, Lives-returned,
}
use distributed_softmax.Worker.Zmq.Order.{Ordered, Drained, Reachable-Ordered, Reachable_drains}

abbrev message : Bytes
message = bytes "m"

abbrev started : State
started = at (message ∷ []) [] none (message ∷ []) (message ∷ []) 0 0

one_runs : Reachable 1 started
one_runs =
    next _ _
      (next _ _ (next _ _ first (receive [] [] none [] [] 0 1 message))
        (work _ _ (take_message (message ∷ []) [] [] [] 0 1 message)))
      (work _ _ (spawn_task (message ∷ []) [] [] [] 0 0 message))

Reachable-Ordered_example : Ordered 1 started
Reachable-Ordered_example = Reachable-Ordered 1 started one_runs

Reachable_drains_example : (u : State) × Works started u × Drained u
Reachable_drains_example = Reachable_drains 1 started (omega arith) one_runs

-- The socket fails while the task runs, and the worker returns.
cut_off : Lives 1 (started, returned)
cut_off =
    lives _ _
      (lives _ _
        (lives _ _
          (lives _ _ (lives _ _ born (goes_on _ _ (receive [] [] none [] [] 0 1 message)))
            (goes_on _ _ (work _ _ (take_message (message ∷ []) [] [] [] 0 1 message))))
          (goes_on _ _ (work _ _ (spawn_task (message ∷ []) [] [] [] 0 0 message))))
        (fails started))
      (returns (message ∷ []) (message ∷ []) (message ∷ []) 0 0)

Lives-returned_example :
    ((message ∷ []) ≡ (message ∷ []))
    × (length (message ∷ []) ≡ length (message ∷ []) + 0)
    × (length (message ∷ []) ≤ 1)
Lives-returned_example =
    Lives-returned 1 (message ∷ []) [] none (message ∷ []) (message ∷ []) 0 0 cut_off
