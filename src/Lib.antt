-- ===== src/Lib.antt =====
-- The softmax of a vector, computed by several workers and put together by a gateway.
--
-- A client sends a vector to the gateway. The gateway splits it into slices, stores the job's
-- metadata in Redis and publishes a message for each slice over ZMQ. A worker takes a message,
-- computes the partial softmax of its slice (the slice's maximum, the exponentials against that
-- maximum, and their sum), writes it to Redis in a binary format and publishes a notification.
-- The gateway reads the slices until it has all of them or its deadline passes, rescales them
-- to the common maximum, stores the result in Redis and answers the client, which may also ask
-- for the result later.
--
-- The parts of the program, and the modules that model them:
-- - gateway-rs/src/service.rs: Gateway/Service. Service/Slices has num_slices, even_chunks and
--   the split of the vector; Service/Submit has submit_task; Service/Results has get_result.
-- - gateway-rs/src/aggregator.rs: Gateway/Aggregator. Aggregator/Slice and Aggregator/ReadSlice
--   have read_slice, the first from the bytes on; Aggregator/Wait has wait_for_all_slices;
--   Aggregator/Cpu has aggregate_softmax_cpu; Aggregator/Aggregate has ResultAggregator::new
--   and aggregate.
-- - gateway-rs/src/redis_manager.rs: Gateway/RedisManager. gateway-rs/src/config.rs:
--   Gateway/Config. gateway-rs/src/slice_notifier.rs: Gateway/SliceNotifier.
--   gateway-rs/src/publisher: Gateway/Publisher, with the endpoints in Publisher/Endpoints.
--   gateway-rs/src/cache_manager.rs: Gateway/CacheManager. Publisher/Startup has new of both
--   publishers and Publisher/Queue the bounded channel to a socket's thread;
--   SliceNotifier/Subscriber has subscriber_loop. gateway-rs/src/main.rs: Gateway/Start, with
--   the choice of a publisher in Gateway/Publisher/Endpoints.
-- - worker-rs/src/softmax.rs: Worker/Softmax. worker-rs/src/handler.rs: Worker/Handler, with
--   the slice format in Handler/Encode, and handle_task and write_result in Handler/Task.
--   worker-rs/src/transport/zmq.rs: Worker/Zmq, what comes before the loop in Zmq/Connect and
--   its end in Zmq/Ends. worker-rs/src/main.rs: Worker/Config and Worker/Start, and run_nccl in
--   Worker/Nccl, its loop first and the whole in Nccl/Run. What the threads of all sockets have
--   in common is in Sockets.
-- - worker-rs/src/gpu_worker.rs and worker-rs/kernels/partial_softmax.cu: Worker/Gpu.
--   Gpu/Kernels has the kernels, Gpu/Partial has GpuWorker, Gpu/AllReduce has NcclWorker and
--   Gpu/Rendezvous has nccl_rendezvous.
-- - gateway-rs/src/gpu_aggregator.rs and gateway-rs/kernels/aggregate_softmax.cu:
--   Gateway/GpuAggregator. Cuda has what the devices of both have in common: the calls of the
--   driver, and the launches.
--
-- State and errors. A call that may fail returns an Outcome: a value, an error, or a panic; an
-- anyhow error is the text that it shows. A call that changes Redis, a publisher's channels or
-- the notifier's jobs takes the state and returns the state that it leaves, errors included
-- (Prelude/Effects). The Redis server is a parameter (Redis), and IsStore states what its
-- commands do between two changes by other clients. What other clients do while the gateway
-- waits is any function from a round of the waiting and a slice to the server that is found.
-- The clock is any function from rounds to times. serde_json, the environment, the driver of
-- the GPU and the communicator of NCCL are parameters too.
--
-- Numbers. Machine integers are natural numbers with their wrap-around written out, as in a
-- release build on a 64-bit target. Floating point is the parameter Floats. IsBitExact says
-- that floats and their bits determine one another, and holds of Floats/FixedPoint; IsExact
-- states the laws of exact arithmetic and holds of Floats/MaxPlus. What rounding adds to a
-- result is not modelled: a theorem in exact arithmetic compares the program's formula with the
-- definition of the softmax, and says nothing of the error of an f32.
--
-- Bounds and fuel. wait_for_all_slices takes a unit of fuel for each round. The rounds end when
-- the clock reaches the deadline, since each waits for at most 100 ms, so any fuel beyond the
-- number of the round in which it does is enough. chunks takes a round for each element and
-- to_decimal a round for each digit, one more than the number itself. The kernels' loop over
-- strides has 9 units of fuel, one more than the 8 values of the stride. All other loops are
-- over lists or over the counts that the code computes.
--
-- Threads of a device. A launch takes a Schedule, which says in which order its threads run
-- between two barriers and in which order results are stored; a theorem about a kernel holds
-- for any complete one. What a kernel would read beyond a buffer is any function of the index.
--
-- Not modelled: what the operating system and the crates do to make a connection, a socket or a
-- thread, of which only the answer appears; logging, but for the one log line that can panic
-- and the errors of the publishers' sockets; the generated gRPC code; the C++ gateway under
-- server, which is kept for reference only. A wake-up of the waiting changes only the times at
-- which rounds happen, so the notifier's channel appears as a count. submit_task publishes into
-- channels that only collect what is published; Publisher/Queue has the bounded ones, and a
-- theorem that they implement those.
pub mod Prelude
pub mod Floats
pub mod Text
pub mod Errors
pub mod Sockets
pub mod Wire
pub mod Json
pub mod Redis
pub mod Cuda
pub mod Worker
pub mod Gateway
