-- ===== src/Worker/Gpu.antt =====
-- worker-rs/src/gpu_worker.rs and worker-rs/kernels/partial_softmax.cu: the partial softmax and the
-- reduction over all ranks on a CUDA device. The driver, the orders in which a launch runs its threads,
-- what lies in the device's memory beyond a buffer and the communicator of NCCL are parameters.
pub mod Kernels
pub mod Device
pub mod Partial
pub mod AllReduce
pub mod Rendezvous
