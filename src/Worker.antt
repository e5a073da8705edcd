-- ===== src/Worker.antt =====
-- worker-rs: the worker process, one module for each of its source files.
pub mod Softmax
pub mod Handler
pub mod Zmq
pub mod Config
pub mod Nccl
pub mod Start
pub mod Gpu
