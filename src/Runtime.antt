-- ===== src/Runtime.antt =====
-- crates/core/src/runtime.rs with the errors of crates/core/src/error.rs and the usage of
-- crates/core/src/meter.rs.
pub mod Errors
pub mod Slots
pub mod Publish
pub mod Semaphore
pub mod Invoke
