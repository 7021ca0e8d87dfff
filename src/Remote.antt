-- ===== src/Remote.antt =====
-- src/remote.rs: pushing the log to a hosted gateway.
pub mod Mapping
pub mod Push
pub mod Cursors
pub mod Order
pub mod Resume
pub mod Pushes
