-- ===== src/Registry/Cache.antt =====
-- `ComponentCache` of crates/core/src/registry.rs. The lock makes each operation one step. A pointer
-- that is read and the disk are arguments.
pub mod Weights
pub mod Evict
pub mod Charge
pub mod Bounds
pub mod Drift
use warpline.Base.{
  ℕ, zero, suc, ◌+◌, ◌-◌, ◌*◌, ◌/◌, ◌%◌, ◌^◌, ◌≤◌, ◌<◌, min, max, ◌≡◌, refl, sym, ap, ◌∙◌, ◌≢◌, ◌↔◌,
  ◌⊎◌, inl, inr, Bool, true, false, not, ◌&&◌, ◌||◌, List, [], ◌∷◌, ◌++◌, map, Option, none, some,
  arith, ltb, leb, ◌==◌, if◌then◌else◌, ltb→lt, lt→ltb, leb→le, le→leb, ==_iff, Bool-cases,
  Option-cases, Bool-eq_of_iff, length, take, drop, replicate, length-append, length-take,
  take-append-drop, all, any, All, keep, sum_by, length-keep-le, word_mod, word_max, i64_max,
  wrapping_add, wrapping_sub, wrapping_mul, saturating_sub, saturating_add, ℤ, pos, negsuc,
  in_range, i64_or_max, Result, ok, err, ◌>>=◌, ◌>>◌, map_err, ok_or, ensure, is_ok, Result-cases,
  Eq, Bytes, bytes_beq, bytes_beq_iff, bytes_eq, pair_beq, pair_beq_iff, pair_eq, lookup, insert,
  remove, lookup-insert, lookup-remove, lookup-insert_self, weigh, weight_at, weigh-insert,
  weight_at-le,
}
use warpline.Types.Names.{is_valid_digest}
use warpline.Registry.Disk.{File, Disk, IoError, read_file}
use warpline.Registry.Pointer.{Error, io, wasmtime, no_source, Io, read_pointer, wasm_name}
use warpline.Registry.Wasmtime.{Wasmtime}
use warpline.Registry.Blobs.{load_cwasm, cache_file_name, persist_cwasm, wasm_error}
use warpline.Registry.Lru.{Lru}

pub record CacheEntry (Pre : Type 0) : Type 0 where
  pub pre : Pre
  pub weight : ℕ

pub data Lookup (Pre : Type 0) : Type 0 where
  not_found : Lookup Pre
  hit : Pre → Lookup Pre
  miss : Bytes → Lookup Pre

pub data Loaded (Pre : Type 0) : Type 0 where
  ready : Pre → Loaded Pre
  needs_compile : Loaded Pre

module _ {Pre : Type 0} (c : Lru (CacheEntry Pre)) where
  pub record ComponentCache : Type 0 where
    pub lru : c.State
    pub total_bytes : ℕ
    pub byte_budget : ℕ

  -- `ComponentCache::new`.
  unfoldable pub new_cache : ℕ → ℕ → ComponentCache
  new_cache cap byte_budget = record {
    lru = c.new (max cap 1);
    total_bytes = 0;
    byte_budget = byte_budget;
  }

  -- `lru.get(digest).map(|e| e.pre.clone())`, which promotes the entry.
  unfoldable pub get_cached : ComponentCache → Bytes → ComponentCache × Option Pre
  get_cached cache digest =
      let r = c.get digest cache.lru in
      (record cache { lru = r.0 }, elim r.1 [ none ↦ none | some e ↦ some e.pre ])

  -- One round of the eviction loop.
  unfoldable pub evict_one : ComponentCache → CacheEntry Pre → c.State → ComponentCache
  evict_one cache evicted rest = record cache {
    lru = rest;
    total_bytes = saturating_sub cache.total_bytes evicted.weight;
  }

  -- `while total_bytes > byte_budget { match lru.pop_lru() { … } }`
  unfoldable pub evict : ℕ → ComponentCache → ComponentCache
  evict zero cache = cache
  evict (suc fuel) cache = elim (ltb cache.byte_budget cache.total_bytes) [
    | false ↦ cache
    | true ↦ elim (c.pop_lru cache.lru).1 [
      | none ↦ record cache { lru = (c.pop_lru cache.lru).0 }
      | some (key, evicted) ↦ evict fuel (evict_one cache evicted (c.pop_lru cache.lru).0)
    ]
  ]

  -- `insert` up to the loop: the entry goes in, an old one under the digest is discharged, and the
  -- weight is charged.
  unfoldable pub charge : ComponentCache → Bytes → Pre → ℕ → ComponentCache
  charge cache digest pre weight =
      let r = c.put digest (record { pre = pre; weight = weight }) cache.lru in
      let discharged : ℕ = elim r.1 [
        | none ↦ cache.total_bytes
        | some evicted ↦ saturating_sub cache.total_bytes evicted.weight
      ] in
      record cache { lru = r.0; total_bytes = wrapping_add discharged weight }

  -- The loop pops an entry in each round, so one round more than there are entries is enough.
  unfoldable pub insert_entry : ComponentCache → Bytes → Pre → ℕ → ComponentCache
  unfolding charge
  insert_entry cache digest pre weight =
      let charged = charge cache digest pre weight in
      evict (suc (length (c.entries charged.lru))) charged

module _ (w : Wasmtime) (c : Lru (CacheEntry w.Pre)) where
  -- `ComponentCache::lookup`.
  unfoldable pub lookup_component :
      ComponentCache c → Disk → Bytes → Bytes → ComponentCache c × Result Error (Lookup w.Pre)
  lookup_component cache d tenant func = elim (read_pointer d tenant func) [
    | err e ↦ (cache, err e)
    | ok none ↦ (cache, ok not_found)
    | ok (some digest) ↦
        let r = get_cached c cache digest in
        (r.0, ok (elim r.1 [ none ↦ miss digest | some pre ↦ hit pre ]))
  ]

  -- `instantiate_pre`, then the insertion.
  unfoldable pub admit :
      ComponentCache c → Bytes → w.Component → ℕ → ComponentCache c × Result Error w.Pre
  admit cache digest component weight = elim (w.instantiate_pre component) [
    | none ↦ (cache, err wasm_error)
    | some pre ↦ (insert_entry c cache digest pre weight, ok pre)
  ]

  abbrev pub file_length : Option File → ℕ
  file_length none = 0
  file_length (some f) = length f.contents

  unfoldable pub load_existing :
      ComponentCache c → Disk → Bytes → ComponentCache c × Result Error (Loaded w.Pre)
  unfolding admit
  load_existing cache d digest =
      let cached = get_cached c cache digest in
      elim cached.1 [
        | some pre ↦ (cached.0, ok (ready pre))
        | none ↦ elim (load_cwasm w d digest) [
          | err e ↦ (cached.0, ok needs_compile)
          | ok component ↦
              let r =
                admit cached.0 digest component
                  (file_length (lookup (cache_file_name w digest) d.cwasm)) in
              (r.0, elim r.1 [ ok pre ↦ ok (ready pre) | err e ↦ err e ])
        ]
      ]

  -- The weight of a recompiled component: of its `.cwasm`, or of its source where that could not
  -- be written.
  abbrev pub weight_or : ℕ → Result Error ℕ → ℕ
  weight_or source (ok len) = len
  weight_or source (err e) = source

  unfoldable pub recompile_source :
      Io → ComponentCache c → Disk → Bytes → Bytes → ComponentCache c × Disk × Result Error w.Pre
  recompile_source sys cache d digest wasm_bytes = elim (w.compile wasm_bytes) [
    | none ↦ (cache, d, err wasm_error)
    | some component ↦
        let persisted = persist_cwasm w sys d component digest in
        let r = admit cache digest component (weight_or (length wasm_bytes) persisted.1) in
        (r.0, persisted.0, r.1)
  ]

  unfoldable pub recompile :
      Io → ComponentCache c → Disk → Bytes → ComponentCache c × Disk × Result Error w.Pre
  recompile sys cache d digest = elim (read_file (lookup (wasm_name digest) d.wasm)) [
    | err e ↦ (cache, d, err no_source)
    | ok wasm_bytes ↦ recompile_source sys cache d digest wasm_bytes
  ]

  unfoldable pub get_or_load :
      Io → ComponentCache c → Disk → Bytes → ComponentCache c × Disk × Result Error w.Pre
  get_or_load sys cache d digest =
      let loaded = load_existing cache d digest in
      elim loaded.1 [
        | err e ↦ (loaded.0, d, err e)
        | ok (ready pre) ↦ (loaded.0, d, ok pre)
        | ok needs_compile ↦ recompile sys loaded.0 d digest
      ]
