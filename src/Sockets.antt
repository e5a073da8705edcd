-- ===== src/Sockets.antt =====
-- A thread that makes a ZMQ socket and reports whether it could: in gateway-rs/src/publisher/zmq.rs for
-- both publishers, and in worker-rs/src/transport/zmq.rs.
use distributed_softmax.Prelude.{Bool, ◌⊎◌, Outcome, err, from_sum, ◌>>◌, if◌then◌else◌}
use distributed_softmax.Errors.{with_prefix}
use distributed_softmax.Text.{Bytes}

-- What the operating system and ZMQ answer: to starting the thread, to making the socket and to
-- binding or connecting it; and whether the thread lives to report.
pub record Setup : Type 0 where
  pub spawn : Bytes ⊎ Unit {0}
  pub socket : Bytes ⊎ Unit {0}
  pub attach : Bytes ⊎ Unit {0}
  pub reports : Bool

-- What the thread sends, and the caller receives.
unfoldable pub thread_ready :
    Setup → (socket_text attach_text died_text : Bytes) → Outcome Bytes (Unit {0})
thread_ready setup socket_text attach_text died_text =
    if setup.reports
    then (with_prefix socket_text (from_sum setup.socket)
        >> with_prefix attach_text (from_sum setup.attach))
    else err died_text
