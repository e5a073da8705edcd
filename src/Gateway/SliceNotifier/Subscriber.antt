-- ===== src/Gateway/SliceNotifier/Subscriber.antt =====
-- gateway-rs/src/slice_notifier.rs: `subscriber_loop`, beside the calls that register and unregister
-- jobs, as what happens one after the other.
pub mod Counts
pub mod Examples
use distributed_softmax.Prelude.{Bool, true, false, List, [], ◌∷◌, if◌then◌else◌}
use distributed_softmax.Text.{Bytes}
use distributed_softmax.Gateway.SliceNotifier.{Jobs, register_job, unregister_job, on_message}

pub data Event : Type 0 where
  -- `get_async_pubsub` or `psubscribe` returns an error: the loop waits a second and begins again.
  connect_fails : Event
  subscribe_fails : Event
  subscribes : Event
  -- A message on a channel, which the server sends to those that are subscribed.
  published : (channel : Bytes) → Event
  -- `stream.next()` returns `None`: the loop begins again.
  stream_ends : Event
  registers : (job_id : Bytes) → Event
  unregisters : (job_id : Bytes) → Event

-- Whether the loop is subscribed, and the jobs.
abbrev pub Notifier : Type 0
Notifier = Bool × Jobs

unfoldable pub on_event : Event → Notifier → Notifier
on_event connect_fails (subscribed, jobs) = (false, jobs)
on_event subscribe_fails (subscribed, jobs) = (false, jobs)
on_event subscribes (subscribed, jobs) = (true, jobs)
on_event (published channel) (subscribed, jobs) =
    (subscribed, if subscribed then on_message jobs channel else jobs)
on_event stream_ends (subscribed, jobs) = (false, jobs)
on_event (registers job_id) (subscribed, jobs) = (subscribed, register_job jobs job_id)
on_event (unregisters job_id) (subscribed, jobs) = (subscribed, unregister_job jobs job_id)

unfoldable pub subscriber_loop : List Event → Notifier → Notifier
subscriber_loop [] n = n
subscriber_loop (e ∷ es) n = subscriber_loop es (on_event e n)
