-- ===== src/Gateway/Publisher.antt =====
-- gateway-rs/src/publisher: the `Publisher` trait, and `publish` of the two ZMQ publishers. A channel
-- to a socket's thread is the payloads that were sent into it, or `none` once the thread has gone; a
-- full channel makes the sender wait, which changes no order.
pub mod Ranks
pub mod Endpoints
pub mod Startup
pub mod Queue
pub mod Examples
use distributed_softmax.Prelude.{
  ℕ, Option, none, some, List, [], ◌∷◌, ◌++◌, ◌⊎◌, inl, inr, get_elem?, set,
}
use distributed_softmax.Text.{Bytes, bytes, to_decimal, parse_uint, usize_max}

-- The trait; an error is its text. `is_connected` is constantly true in both implementations.
pub record Publisher : Type 1 where
  pub State : Type 0
  pub publish : (subject payload : Bytes) → State → (Bytes ⊎ Unit {0}) × State

abbrev pub Channel : Type 0
Channel = Option (List Bytes)

-- `ZmqPublisher::publish`, at the channel's answer to a payload that cannot be sent.
unfoldable pub single_publish : (subject payload : Bytes) → Channel → (Bytes ⊎ Unit {0}) × Channel
single_publish subject payload none =
    (inl (bytes "ZMQ channel send failed: sending on a closed channel"), none)
single_publish subject payload (some sent) = (inr tt, some (sent ++ (payload ∷ [])))

abbrev pub zmq_publisher : Publisher
zmq_publisher = record { State = Channel; publish = single_publish }

unfoldable pub rank_send :
    ℕ → Bytes → List Channel → Option Channel → (Bytes ⊎ Unit {0}) × List Channel
rank_send rank payload senders none =
    (inl (bytes "ZmqMultiPublisher: rank " ++ (to_decimal rank ++ bytes " out of range")), senders)
rank_send rank payload senders (some none) = (
  inl (
      bytes "ZMQ rank "
      ++ (to_decimal rank ++ bytes " channel send failed: sending on a closed channel")),
  senders,
)
rank_send rank payload senders (some (some sent)) =
    (inr tt, set senders rank (some (sent ++ (payload ∷ []))))

-- `ZmqMultiPublisher::publish`: a channel for each rank.
unfoldable pub multi_publish :
    (subject payload : Bytes) → List Channel → (Bytes ⊎ Unit {0}) × List Channel
unfolding rank_send
multi_publish subject payload senders = elim (parse_uint usize_max subject) [
  | none ↦ (inl (bytes "ZmqMultiPublisher: invalid rank '" ++ (subject ++ bytes "'")), senders)
  | some rank ↦ rank_send rank payload senders (get_elem? senders rank)
]

abbrev pub zmq_multi_publisher : Publisher
zmq_multi_publisher = record { State = List Channel; publish = multi_publish }
