-- ===== src/Gateway/Service.antt =====
-- gateway-rs/src/service.rs: the gRPC service.
pub mod Slices
pub mod Submit
pub mod Results
