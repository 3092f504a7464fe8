-- ===== src/Lib.antt =====
-- warpline: a multi-tenant runtime for WebAssembly components, with an HTTP front end (crates/host)
-- and an upload front end (crates/control) over one library (crates/core). A tenant's function is
-- uploaded as a component, stored by its digest and reached through a pointer file; a call runs the
-- component in a sandbox under a CPU budget, a memory cap, and quotas on its key/value store, its
-- log and its outbound requests.
--
-- Modelled are, of crates/core, the two front ends and an example:
--   Types     crates/core/src/types.rs. Names (`valid_name`, and `is_valid_digest` of cache.rs),
--             Limits (the validators, `Limits`), Bearer (`parse_bearer`), Limiter (`TenantLimiter`,
--             and in Limiter/Combined the memories of one store that grow through it).
--   Kv        crates/core/src/kv.rs. `KvStore` is a record of its operations, MemKv the store in
--             memory that implements it, with its quota.
--   Sandbox   crates/core/src/sandbox.rs. Context (`HostCtx` and the host functions `kv` and `log`),
--             Address (`is_blocked_ip`), Fetch (`GuardedResolver` and `http_fetch`), Text
--             (`truncate_utf8`), Budget (`call_limit`, the epoch callback, `classify`, `run`).
--   Registry  crates/core/src/registry.rs and crates/core/src/cache.rs. Disk (the directory
--             `modules_dir`), Pointer (pointer files and sources), Blobs (`.cwasm` files), Cache
--             (`ComponentCache`), Gc (`gc_unreferenced_blobs`).
--   Runtime   crates/core/src/runtime.rs. Errors (crates/core/src/error.rs and Usage of meter.rs), Slots
--             (`TenantSlot`), Publish (`stage`, `activate`, `active`, `deactivate`,
--             `activate_digest`, `publish`), Invoke (`invoke` with its admission and `MeterGuard`).
--   Pg        crates/core/src/pg. Schema (the tables of crates/core/migrations/0001_warpline.sql with
--             their constraints), Auth (`Authenticator`), Admin (`patch_tenant`, `create_tenant`,
--             `tenant_limits`, `set_limits`), Meter (`PgMeter` and its writer task).
--   Front     what both front ends do with the header of a request (`bearer_from`, the check of the
--             key against the tenant).
--   Control   crates/control/src/lib.rs. Token (`constant_time_eq`), Publish (`publish_pointer`,
--             `publish_in_db`, `try_reconcile`), Upload (`upload`), Admin (`admin_create_tenant`).
--   Host      crates/host/src/lib.rs (`invoke_handler`, `outcome_label`).
--   Storefront  examples/storefront/app/src. Kv (`PgKv` of kv.rs), Checkout (checkout.rs).
--   Base holds what they share: results, words, maps as association lists, tables. Examples holds
--   the tests.
--
-- A function of the source is a function of the same name, a method takes its object's name where
-- the plain name would be another's (`new_cache`, `insert_entry`, `lookup_component`). State is
-- passed and returned; a `Mutex` or an `RwLock` makes each critical section one step. Words wrap at
-- 2 ^ 64 where the source adds or subtracts plainly. A `str` is a list of bytes; in parse_bearer and
-- in a pointer file it is a list of its characters.
--
-- Not in the repository, and so parameters: the url crate's parsers, DNS, the HTTP client, the lru
-- crate (Registry/Lru, with what its documentation says), wasmtime with SHA-256
-- (Registry/Wasmtime), tokio's semaphore (Runtime/Semaphore) and channel (Pg/Meter/Mpsc), serde.
-- An SQL statement is a function on the tables that its text names; Postgres, behind a transaction,
-- a timeout and a lock, is an argument that says for each statement whether it gets through, and for
-- a commit also whether its answer does. What wasmtime and the clock do during
-- a run is a list of events. Fuel is used in the eviction loop of `ComponentCache::insert`, where each
-- round pops an entry, so one round more than there are entries is enough, and in the writer of the
-- meter after its queue is closed, where a round for each 200 rows that wait is enough.
--
-- A call of `invoke` is modelled alone, from its checks to its report, and so is a request to a front
-- end; publications of one tenant hold its lock. Not modelled are calls that interleave, the builder
-- of the runtime, the start-up and migration of the database and the totals of usage, the routers
-- and the metrics registry, the storefront's own handlers, the guests, and the set-up of the engine, the linker and the HTTP client,
-- which is configuration of libraries. A task on the blocking pool is taken to run to its end.
pub mod Base
pub mod Types
pub mod Kv
pub mod Sandbox
pub mod Registry
pub mod Runtime
pub mod Control
pub mod Examples
pub mod Front
pub mod Host
pub mod Pg
pub mod Storefront
