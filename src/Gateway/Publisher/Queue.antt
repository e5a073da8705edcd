-- ===== src/Gateway/Publisher/Queue.antt =====
-- gateway-rs/src/publisher/zmq.rs: the channel between the callers of `publish` and the thread of a
-- socket, and the loop of that thread, as what happens one after the other. A `sync_channel` has room
-- for so many payloads; a sender waits for room.
pub mod Fifo
pub mod Delivers
pub mod Examples
use distributed_softmax.Prelude.{
  ℕ, Bool, true, false, ◌⊎◌, inl, inr, Option, none, some, List, [], ◌∷◌, ◌++◌, length, ltb,
  if◌then◌else◌,
}
use distributed_softmax.Text.{Bytes, bytes, to_decimal}

-- The room of a channel, and the texts of the error of `publish` and of the log.
pub record Push : Type 0 where
  pub capacity : ℕ
  pub closed_text : Bytes
  pub error_text : Bytes

abbrev pub single_push : Push
single_push = record {
  capacity = 50000;
  closed_text = bytes "ZMQ channel send failed: sending on a closed channel";
  error_text = bytes "ZMQ send error: ";
}

abbrev pub rank_push : (rank : ℕ) → Push
rank_push rank = record {
  capacity = 100000;
  closed_text =
      bytes "ZMQ rank "
      ++ (to_decimal rank ++ bytes " channel send failed: sending on a closed channel");
  error_text = bytes "ZMQ rank " ++ (to_decimal rank ++ bytes " send error: ");
}

-- The payloads in the channel; those that the thread has given to its socket, with what the socket
-- answered; what the thread has logged; and whether it runs.
pub data Pipe : Type 0 where
  pipe :
      (channel : List Bytes) (handled : List (Bytes × (Bytes ⊎ Unit {0}))) (logged : List Bytes)
      (running : Bool)
      → Pipe

pub data Action : Type 0 where
  publishes : (payload : Bytes) → Action
  answers : Bytes ⊎ Unit {0} → Action
  -- The thread ends by a panic of its own, and the channel is closed.
  dies : Action

-- What `new` makes.
abbrev pub opened : List Bytes × Pipe
opened = ([], pipe [] [] [] true)

module _ (push : Push) where
  -- `sender.send(payload)`: the answer, or `none` where there is no room and the caller waits.
  unfoldable pub send : Bytes → Pipe → Option ((Bytes ⊎ Unit {0}) × Pipe)
  send payload (pipe channel handled logged false) =
      some (inl push.closed_text, pipe channel handled logged false)
  send payload (pipe channel handled logged true) =
      if ltb (length channel) push.capacity
      then some (inr tt, pipe (channel ++ (payload ∷ [])) handled logged true)
      else none

  -- A round of `for payload in rx`, at the answer of `sock.send(payload, 0)`; with an empty channel the
  -- thread waits.
  unfoldable pub send_round : Bytes ⊎ Unit {0} → Pipe → Pipe
  send_round answer (pipe channel handled logged false) = pipe channel handled logged false
  send_round answer (pipe [] handled logged true) = pipe [] handled logged true
  send_round (inl e) (pipe (payload ∷ channel) handled logged true) =
      pipe channel (handled ++ ((payload, inl e) ∷ [])) (logged ++ ((push.error_text ++ e) ∷ []))
        true
  send_round (inr u) (pipe (payload ∷ channel) handled logged true) =
      pipe channel (handled ++ ((payload, inr u) ∷ [])) logged true

  -- One thing after the other, with the payloads for which `publish` has returned `Ok`, in their order.
  -- A caller that waits for room publishes again later.
  unfoldable pub on_action : Action → List Bytes × Pipe → List Bytes × Pipe
  unfolding send send_round
  on_action (publishes payload) (accepted, q) = elim (send payload q) [
    | none ↦ (accepted, q)
    | some (inl e, q') ↦ (accepted, q')
    | some (inr u, q') ↦ (accepted ++ (payload ∷ []), q')
  ]
  on_action (answers answer) (accepted, q) = (accepted, send_round answer q)
  on_action dies (accepted, pipe channel handled logged running) =
      (accepted, pipe channel handled logged false)

  unfoldable pub run_push : List Action → List Bytes × Pipe → List Bytes × Pipe
  unfolding on_action
  run_push [] state = state
  run_push (action ∷ actions) state = run_push actions (on_action action state)
