-- ===== src/Gateway/SliceNotifier/Subscriber/Examples.antt =====
-- A message that is lost while the loop is not subscribed, and two that are not.
use distributed_softmax.Prelude.{◌≡◌, refl, false, some, List, [], ◌∷◌}
use distributed_softmax.Text.{bytes, beq, strip_prefix}
use distributed_softmax.Worker.Handler.Task.{pub_channel}
use distributed_softmax.Gateway.SliceNotifier.{
  get_job, register_job, unregister_job, bump, on_message,
}
use distributed_softmax.Gateway.SliceNotifier.Subscriber.{
  Event, connect_fails, subscribes, published, stream_ends, registers, on_event, subscriber_loop,
}
use distributed_softmax.Gateway.SliceNotifier.Subscriber.Counts.{counter, subscriber_loop-counter}

abbrev history : List Event
history =
    registers (bytes "a")
    ∷ connect_fails
    ∷ published (pub_channel (bytes "a"))
    ∷ subscribes
    ∷ published (pub_channel (bytes "a"))
    ∷ published (pub_channel (bytes "b"))
    ∷ published (pub_channel (bytes "a"))
    ∷ stream_ends
    ∷ []

two_heard : get_job (subscriber_loop history (false, [])).1 (bytes "a") ≡ some 2
unfolding get_job subscriber_loop on_event on_message register_job unregister_job bump pub_channel
    beq strip_prefix
two_heard = refl

subscriber_loop-counter_example :
    get_job (subscriber_loop history (false, [])).1 (bytes "a")
    ≡ counter (bytes "a") history false (get_job [] (bytes "a"))
subscriber_loop-counter_example = subscriber_loop-counter history false [] (bytes "a")
