-- ===== src/Registry.antt =====
-- crates/core/src/registry.rs and crates/core/src/cache.rs: the module registry on disk, its
-- garbage collection, and the in-memory cache of loaded components.
pub mod Disk
pub mod Pointer
pub mod Lru
pub mod Wasmtime
pub mod Blobs
pub mod Cache
pub mod Gc
