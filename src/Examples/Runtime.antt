-- ===== src/Examples/Runtime.antt =====
-- Tests of crates/core/src/runtime.rs.
use warpline.Base.{
  ℕ, ◌+◌, ◌-◌, ◌*◌, ◌/◌, ◌≤◌, ◌<◌, ◌≡◌, refl, ◌⊎◌, true, false, List, [], ◌∷◌, Option, none, some,
  arith, leb, if◌then◌else◌, ok, err, Bytes, bytes_eq, pair_eq, lookup,
}
use warpline.Base.Text.{codes}
use warpline.Registry.Disk.{read_file}
use warpline.Types.Names.{valid_name, is_valid_digest}
use warpline.Types.Limits.{ConfigError, validate_limits, default_limits}
use warpline.Registry.Pointer.{write_pointer, read_pointer, parse_pointer, pointer_path}
use warpline.Registry.Lru.{Lru}
use warpline.Registry.Wasmtime.{Wasmtime}
use warpline.Registry.Blobs.{cache_file_name, compile, compile_fresh, wasm_error}
use warpline.Registry.Cache.{CacheEntry, new_cache}
use warpline.Sandbox.Budget.{Event, instantiated, returned, tick}
use warpline.Runtime.Errors.{invalid_name, invalid_limits, tenant_busy, overloaded, not_found}
use warpline.Runtime.Invoke.Order.{Short, Names, invoke_unpublished}
use warpline.Runtime.Slots.{in_flight_of}
use warpline.Runtime.Semaphore.{Semaphore}
use warpline.Runtime.Publish.{activate}
use warpline.Runtime.Invoke.{Inner, invoke, mib, weight_of_cap}
use warpline.Runtime.Invoke.Released.{invoke-released}
use warpline.Runtime.Invoke.MeteredOnce.{MeteredOnce, invoke-MeteredOnce}
use warpline.Examples.ListLru.{list_lru}
use warpline.Examples.Registry.{acme, hello, digest_b, toy, disk, works}

-- Permits are a number.
abbrev pub take_permits : ℕ → ℕ → Option ℕ
take_permits n s = if leb n s then some (s - n) else none

pub take_permits-short : (n s : ℕ) → s < n → take_permits n s ≡ none
take_permits-short n s h = ground arith

pub take_permits-enough : (n s : ℕ) → n ≤ s → (t : ℕ) × (take_permits n s ≡ some t) × (t + n ≡ s)
take_permits-enough n s h = (s - n, ground arith, omega arith)

abbrev pub permits : Semaphore
permits = record {
  State = ℕ;
  available_permits = λ s. s;
  try_acquire_many = take_permits;
  add_permits = λ n s. s + n;
  acquire-short = take_permits-short;
  acquire-enough = take_permits-enough;
  available-add = λ n s. refl;
}

abbrev pub lru : Lru (CacheEntry Bytes)
lru = list_lru (CacheEntry Bytes)

abbrev pub idle : Inner toy lru permits
idle = record {
  cfg = record {
    memory_budget_bytes = 1024 * mib;
    max_in_flight_per_tenant = 2;
    max_output_bytes = 8 * mib;
  };
  components = new_cache lru 256 (512 * mib);
  disk = disk;
  admission = 1024;
  in_flight = [];
  meter = true;
  metered = [];
}

-- A guest that instantiates, works for a tick and echoes its own bytes.
abbrev pub echo : Bytes → List Event
echo pre = instantiated (ok tt) ∷ tick ∷ returned (ok pre) ∷ []

invoke-released_example :
    let after = (invoke toy lru permits works echo 5 idle acme hello default_limits).0 in
    (in_flight_of acme after.in_flight ≡ in_flight_of acme idle.in_flight)
    × (permits.available_permits after.admission ≡ permits.available_permits idle.admission)
invoke-released_example =
    invoke-released toy lru permits works echo 5 idle acme hello default_limits acme (omega arith)
      (omega arith)

invoke-MeteredOnce_example :
    let r = invoke toy lru permits works echo 5 idle acme hello default_limits in
    MeteredOnce acme hello idle.metered r.0.metered r.1
invoke-MeteredOnce_example =
    invoke-MeteredOnce toy lru permits works echo 5 idle acme hello default_limits refl

good_names : (valid_name acme ≡ true) × (valid_name hello ≡ true)
unfolding valid_name
good_names = (refl, refl)

activated : (activate works disk acme hello digest_b).1 ≡ ok tt
unfolding activate write_pointer is_valid_digest pointer_path valid_name
activated = refl

-- Nothing compiles.
abbrev picky : Wasmtime
picky = record toy { compile = λ b. none; deserialize = λ b. none }

not_compiled : compile picky disk (1 ∷ []) ≡ err wasm_error
unfolding compile compile_fresh lookup cache_file_name
not_compiled = refl

abbrev ghost : Bytes
ghost = codes "ghost"

unpublished : read_pointer disk acme ghost ≡ ok none
unfolding read_pointer pointer_path valid_name read_file lookup parse_pointer
unpublished = refl

invoke_unpublished_example :
    let weight = weight_of_cap default_limits.mem_cap_bytes in
    let free = permits.available_permits idle.admission in
    let busy = in_flight_of acme idle.in_flight in
    let r = (invoke toy lru permits works echo 5 idle acme ghost default_limits).1 in
    (((valid_name acme ≡ false) ⊎ (valid_name ghost ≡ false)) × (r ≡ some (err invalid_name)))
    ⊎ (Names acme ghost
        × ((e : ConfigError) × (validate_limits default_limits ≡ err e)
            × (r ≡ some (err (invalid_limits e)))))
    ⊎ (Names acme ghost
        × (validate_limits default_limits ≡ ok tt)
        × (2 ≤ busy)
        × (r ≡ some (err tenant_busy)))
    ⊎ (Names acme ghost
        × (validate_limits default_limits ≡ ok tt)
        × (busy < 2)
        × Short weight (1024 * mib) free
        × (r ≡ some (err overloaded)))
    ⊎ (Names acme ghost
        × (validate_limits default_limits ≡ ok tt)
        × (busy < 2)
        × (weight ≤ 1024 * mib / mib)
        × (weight ≤ free)
        × (r ≡ some (err not_found)))
invoke_unpublished_example =
    invoke_unpublished toy lru permits works echo 5 idle acme ghost default_limits (omega arith)
      (omega arith) unpublished
