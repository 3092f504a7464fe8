-- ===== src/Kv/MemKv.antt =====
-- `MemKv` of crates/core/src/kv.rs: entries under (tenant, key), and the bytes that each tenant is
-- charged, under one lock.
pub mod Quota
use warpline.Base.{
  ℕ, zero, suc, ◌+◌, ◌-◌, ◌*◌, ◌/◌, ◌%◌, ◌^◌, ◌≤◌, ◌<◌, min, max, ◌≡◌, refl, sym, ap, ◌∙◌, ◌≢◌, ◌↔◌,
  ◌⊎◌, inl, inr, Bool, true, false, not, ◌&&◌, ◌||◌, List, [], ◌∷◌, ◌++◌, map, Option, none, some,
  arith, ltb, leb, ◌==◌, if◌then◌else◌, ltb→lt, lt→ltb, leb→le, le→leb, ==_iff, Bool-cases,
  Option-cases, Bool-eq_of_iff, length, take, drop, replicate, length-append, length-take,
  take-append-drop, all, any, All, keep, sum_by, length-keep-le, word_mod, word_max, i64_max,
  wrapping_add, wrapping_sub, wrapping_mul, saturating_sub, saturating_add, ℤ, pos, negsuc,
  in_range, i64_or_max, Result, ok, err, ◌>>=◌, ◌>>◌, map_err, ok_or, ensure, is_ok, Result-cases,
  Eq, Bytes, bytes_beq, bytes_beq_iff, bytes_eq, pair_beq, pair_beq_iff, pair_eq, lookup, insert,
  remove, lookup-insert, lookup-remove, lookup-insert_self, weigh, weight_at, weigh-insert,
  weight_at-le,
}
use warpline.Kv.{KvError, quota_exceeded, KvStore}

abbrev pub default_tenant_cap_bytes : ℕ
default_tenant_cap_bytes = 16 * 1024 * 1024

abbrev pub entry_overhead_bytes : ℕ
entry_overhead_bytes = 64

pub record MemKvInner : Type 0 where
  pub entries : List ((Bytes × Bytes) × Bytes)
  pub tenant_bytes : List (Bytes × ℕ)

pub record MemKv : Type 0 where
  pub inner : MemKvInner
  pub open inner use *
  pub tenant_cap_bytes : ℕ

-- `MemKv::with_capacity_bytes`.
abbrev pub with_capacity_bytes : ℕ → MemKv
with_capacity_bytes cap = record {
  inner = record { entries = []; tenant_bytes = [] };
  tenant_cap_bytes = cap;
}

-- `MemKv::new`.
abbrev pub new_mem_kv : MemKv
new_mem_kv = with_capacity_bytes default_tenant_cap_bytes

-- The closure `cost` of `put`.
unfoldable pub cost : Bytes → ℕ → ℕ
cost key v_len = wrapping_add (wrapping_add entry_overhead_bytes (length key)) v_len

-- `.map(|v| cost(v.len())).unwrap_or(0)`, and `.copied().unwrap_or(0)`.
abbrev pub cost_or_zero : Bytes → Option Bytes → ℕ
cost_or_zero key none = 0
cost_or_zero key (some v) = cost key (length v)

abbrev pub or_zero : Option ℕ → ℕ
or_zero none = 0
or_zero (some n) = n

unfoldable pub get : MemKv → Bytes → Bytes → Result KvError (Option Bytes)
get s tenant key = ok (lookup (tenant, key) s.entries)

-- The bytes that the tenant would use after the put.
unfoldable pub new_used : MemKv → Bytes → Bytes → Bytes → ℕ
new_used s tenant key value =
    wrapping_add
      (wrapping_sub (or_zero (lookup tenant s.tenant_bytes))
        (cost_or_zero key (lookup (tenant, key) s.entries)))
      (cost key (length value))

-- The two insertions of a put that fits.
unfoldable pub store : MemKv → Bytes → Bytes → Bytes → MemKv
store s tenant key value = record s {
  inner = record {
    entries = insert (tenant, key) value s.entries;
    tenant_bytes = insert tenant (new_used s tenant key value) s.tenant_bytes;
  };
}

unfoldable pub put : MemKv → Bytes → Bytes → Bytes → MemKv × Result KvError (Unit {0})
put s tenant key value =
    if ltb s.tenant_cap_bytes (new_used s tenant key value)
    then (
      s,
      err (
          quota_exceeded (or_zero (lookup tenant s.tenant_bytes)) (cost key (length value))
            s.tenant_cap_bytes),
    )
    else (store s tenant key value, ok tt)

-- `impl KvStore for MemKv`.
abbrev pub mem_kv_store : KvStore
mem_kv_store = record { State = MemKv; get = get; put = put }
