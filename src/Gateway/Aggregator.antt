-- ===== src/Gateway/Aggregator.antt =====
-- gateway-rs/src/aggregator.rs: `ResultAggregator`. `Cpu` is `aggregate_softmax_cpu`.
pub mod Cpu
pub mod Slice
pub mod ReadSlice
pub mod Wait
pub mod Aggregate
