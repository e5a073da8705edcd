-- ===== src/Worker/Handler.antt =====
-- worker-rs/src/handler.rs. `Encode` is the slice format.
pub mod Encode
pub mod Task
