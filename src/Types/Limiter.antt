-- ===== src/Types/Limiter.antt =====
-- `TenantLimiter` of crates/core/src/types.rs: the wasmtime `ResourceLimiter` of one store.
pub mod Combined
use warpline.Base.{
  ℕ, zero, suc, ◌+◌, ◌-◌, ◌*◌, ◌/◌, ◌%◌, ◌^◌, ◌≤◌, ◌<◌, min, max, ◌≡◌, refl, sym, ap, ◌∙◌, ◌≢◌, ◌↔◌,
  ◌⊎◌, inl, inr, Bool, true, false, not, ◌&&◌, ◌||◌, List, [], ◌∷◌, ◌++◌, map, Option, none, some,
  arith, ltb, leb, ◌==◌, if◌then◌else◌, ltb→lt, lt→ltb, leb→le, le→leb, ==_iff, Bool-cases,
  Option-cases, Bool-eq_of_iff, length, take, drop, replicate, length-append, length-take,
  take-append-drop, all, any, All, keep, sum_by, length-keep-le, word_mod, word_max, i64_max,
  wrapping_add, wrapping_sub, wrapping_mul, saturating_sub, saturating_add, ℤ, pos, negsuc,
  in_range, i64_or_max, Result, ok, err, ◌>>=◌, ◌>>◌, map_err, ok_or, ensure, is_ok, Result-cases,
  Eq, Bytes, bytes_beq, bytes_beq_iff, bytes_eq, pair_beq, pair_beq_iff, pair_eq, lookup, insert,
  remove, lookup-insert, lookup-remove, lookup-insert_self, weigh, weight_at, weigh-insert,
  weight_at-le,
}

abbrev pub max_instances : ℕ
max_instances = 32

abbrev pub max_tables : ℕ
max_tables = 8

abbrev pub max_memories : ℕ
max_memories = 4

pub record TenantLimiter : Type 0 where
  pub mem_cap_bytes : ℕ
  pub total_bytes : ℕ
  pub peak_bytes : ℕ
  pub cap_hit : Bool
  pub table_cap_elems : ℕ
  pub total_table_elems : ℕ

-- `TenantLimiter::new`.
abbrev pub new_limiter : ℕ → TenantLimiter
new_limiter cap = record {
  mem_cap_bytes = cap;
  total_bytes = 0;
  peak_bytes = 0;
  cap_hit = false;
  table_cap_elems = 10_000;
  total_table_elems = 0;
}

-- `maximum.is_some_and(|m| desired > m)`.
abbrev pub above_declared : Option ℕ → ℕ → Bool
above_declared none desired = false
above_declared (some m) desired = ltb m desired

unfoldable pub memory_growing : TenantLimiter → ℕ → ℕ → Option ℕ → TenantLimiter × Bool
memory_growing l current desired declared =
    let new_total = wrapping_add l.total_bytes (saturating_sub desired current) in
    if above_declared declared desired
    then (l, false)
    else if leb new_total l.mem_cap_bytes
    then (record l { total_bytes = new_total; peak_bytes = max l.peak_bytes new_total }, true)
    else (record l { cap_hit = true }, false)

unfoldable pub table_growing : TenantLimiter → ℕ → ℕ → Option ℕ → TenantLimiter × Bool
table_growing l current desired declared =
    let new_total = wrapping_add l.total_table_elems (saturating_sub desired current) in
    if above_declared declared desired
    then (l, false)
    else if leb new_total l.table_cap_elems
    then (record l { total_table_elems = new_total }, true)
    else (l, false)

-- Sizes of allocations are below 2 ^ 63, as everywhere in Rust.
abbrev pub size_bound : ℕ
size_bound = 2 ^ 63

-- The running totals stay within their caps, and the peak between total and cap.
pub record WithinCaps (l : TenantLimiter) : Type 0 where
  pub total_low : l.total_bytes ≤ l.peak_bytes
  pub peak_cap : l.peak_bytes ≤ l.mem_cap_bytes
  pub mem_bound : l.mem_cap_bytes < size_bound
  pub table_cap : l.total_table_elems ≤ l.table_cap_elems
  pub table_bound : l.table_cap_elems < size_bound

-- A fresh limiter is within its caps.
pub new_limiter-WithinCaps : (cap : ℕ) → cap < size_bound → WithinCaps (new_limiter cap)
new_limiter-WithinCaps cap h = omega arith

-- For every request to grow a memory or a table, to a size below 2 ^ 63, the limiter stays within
-- its caps.
pub growing-WithinCaps :
    (l : TenantLimiter) (current desired : ℕ) (declared : Option ℕ)
    → WithinCaps l
    → desired < size_bound
    → WithinCaps (memory_growing l current desired declared).0
      × WithinCaps (table_growing l current desired declared).0
unfolding memory_growing table_growing
growing-WithinCaps l current desired declared v h = (ground arith, ground arith)

-- A request for memory is granted exactly when the declared maximum allows it and the sum of all
-- growth still fits under the cap. A grant adds the growth to the total; a refusal leaves the
-- totals alone, and raises the cap flag exactly when the declared maximum was not the reason. The
-- limiter was within its caps and the size asked for is below 2^63.
pub memory_growing_cases :
    (l : TenantLimiter) (current desired : ℕ) (declared : Option ℕ)
    → WithinCaps l
    → desired < size_bound
    → let r = memory_growing l current desired declared in
      ((above_declared declared desired ≡ true) × (r ≡ (l, false)))
      ⊎ ((above_declared declared desired ≡ false)
          × (l.total_bytes + (desired - current) ≤ l.mem_cap_bytes)
          × (r.1 ≡ true)
          × (r.0.total_bytes ≡ l.total_bytes + (desired - current))
          × (r.0.cap_hit ≡ l.cap_hit))
      ⊎ ((above_declared declared desired ≡ false)
          × (l.mem_cap_bytes < l.total_bytes + (desired - current))
          × (r ≡ (record l { cap_hit = true }, false)))
unfolding memory_growing
memory_growing_cases l current desired declared v h = ground arith
