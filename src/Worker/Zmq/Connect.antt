-- ===== src/Worker/Zmq/Connect.antt =====
-- worker-rs/src/transport/zmq.rs: `run` up to its loop.
use distributed_softmax.Prelude.{◌++◌, Outcome, ◌>>◌, from_sum}
use distributed_softmax.Errors.{with_context}
use distributed_softmax.Text.{Bytes, bytes}
use distributed_softmax.Sockets.{Setup, thread_ready}

-- The thread that receives is started, and connects to the endpoint.
unfoldable pub connect_pull : Setup → (endpoint : Bytes) → Outcome Bytes (Unit {0})
connect_pull setup endpoint =
    with_context (bytes "spawn zmq thread") (from_sum setup.spawn)
    >> thread_ready setup (bytes "zmq socket: ") (bytes "zmq connect " ++ (endpoint ++ bytes ": "))
        (bytes "zmq setup channel closed")
