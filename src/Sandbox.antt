-- ===== src/Sandbox.antt =====
-- crates/core/src/sandbox.rs: the address filter and the outbound HTTP call, the host functions
-- that a guest imports with their quotas, and the call under its CPU budget.
pub mod Address
pub mod Context
pub mod Text
pub mod Budget
pub mod Fetch
