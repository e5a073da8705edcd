-- ===== src/Gateway.antt =====
-- gateway-rs: the gRPC gateway, one module for each of its source files.
pub mod Config
pub mod RedisManager
pub mod SliceNotifier
pub mod Publisher
pub mod CacheManager
pub mod Aggregator
pub mod GpuAggregator
pub mod Service
pub mod Start
