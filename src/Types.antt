-- ===== src/Types.antt =====
-- crates/core/src/types.rs: names, limits and their validation, bearer tokens, the per-store
-- memory limiter; and `is_valid_digest` of crates/core/src/cache.rs.
pub mod Names
pub mod Limits
pub mod Bearer
pub mod Limiter
