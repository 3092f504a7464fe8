-- ===== src/Pg.antt =====
-- crates/core/src/pg: keys, limits and usage in Postgres.
pub mod Schema
pub mod Auth
pub mod Admin
pub mod Meter
