-- ===== src/Storefront/Kv.antt =====
-- `PgKv` of examples/storefront/app/src/kv.rs: the key/value store of guests in a table. Writers of a
-- tenant hold its lock, so each put is one step. Lengths are below 2^63, as Rust's are.
pub mod Sums
pub mod Simulates
use warpline.Base.{
  ℕ, zero, suc, ◌+◌, ◌-◌, ◌*◌, ◌/◌, ◌%◌, ◌^◌, ◌≤◌, ◌<◌, min, max, ◌≡◌, refl, sym, ap, ◌∙◌, ◌≢◌, ◌↔◌,
  ◌⊎◌, inl, inr, Bool, true, false, not, ◌&&◌, ◌||◌, List, [], ◌∷◌, ◌++◌, map, Option, none, some,
  arith, ltb, leb, ◌==◌, if◌then◌else◌, ltb→lt, lt→ltb, leb→le, le→leb, ==_iff, Bool-cases,
  Option-cases, Bool-eq_of_iff, length, take, drop, replicate, length-append, length-take,
  take-append-drop, all, any, All, keep, sum_by, length-keep-le, word_mod, word_max, i64_max,
  wrapping_add, wrapping_sub, wrapping_mul, saturating_sub, saturating_add, ℤ, pos, negsuc,
  in_range, i64_or_max, Result, ok, err, ◌>>=◌, ◌>>◌, map_err, ok_or, ensure, is_ok, Result-cases,
  Eq, Bytes, bytes_beq, bytes_beq_iff, bytes_eq, pair_beq, pair_beq_iff, pair_eq, lookup, insert,
  remove, lookup-insert, lookup-remove, lookup-insert_self, weigh, weight_at, weigh-insert,
  weight_at-le,
}
use warpline.Kv.{KvError, quota_exceeded, backend}
use warpline.Pg.Schema.{SqlError, CommitAnswer, as_i64}

abbrev pub pg_entry_overhead_bytes : ℕ
pg_entry_overhead_bytes = 64

-- `storefront.hook_kv` by its primary key.
abbrev pub HookKv : Type 0
HookKv = List ((Bytes × Bytes) × Bytes)

pub record PgKv : Type 0 where
  pub hook_kv : HookKv
  pub tenant_cap_bytes : ℕ

-- `PgKv::new`, on an empty table.
unfoldable pub new_pg_kv : ℕ → PgKv
new_pg_kv cap = record { hook_kv = []; tenant_cap_bytes = min cap i64_max }

-- `$3 + octet_length(key) + octet_length(value)`.
unfoldable pub row_bytes : Bytes → Bytes → ℕ
row_bytes key value = pg_entry_overhead_bytes + length key + length value

-- The two sums of the query: all rows of the tenant, and those with the key.
unfoldable pub used_by : Bytes → HookKv → ℕ
used_by tenant [] = 0
used_by tenant (((t, k), v) ∷ l) =
    (if bytes_beq t tenant then row_bytes k v else 0) + used_by tenant l

unfoldable pub old_of : Bytes → Bytes → HookKv → ℕ
old_of tenant key [] = 0
old_of tenant key (((t, k), v) ∷ l) =
    (if bytes_beq t tenant && bytes_beq k key then row_bytes k v else 0) + old_of tenant key l

-- `::bigint` fails on what does not fit.
unfoldable pub bigint : ℕ → Result KvError ℕ
bigint n = if leb n i64_max then ok n else err (backend [])

-- `ENTRY_OVERHEAD_BYTES.saturating_add(…).saturating_add(…)`.
unfoldable pub pg_cost : Bytes → Bytes → ℕ
pg_cost key value = min (min (pg_entry_overhead_bytes + length key) i64_max + length value) i64_max

-- `used - old + cost > cap`, on i64; `old` is part of `used`.
unfoldable pub above_cap : ℕ → ℕ → ℕ → ℕ → Bool
above_cap used old cost cap = elim (as_i64 (used - old + cost)) [
  | pos n ↦ ltb cap n
  | negsuc n ↦ false
]

-- Does the database carry each step? Its messages are left out.
pub record KvNetwork : Type 0 where
  pub begin : Result KvError (Unit {0})
  pub lock : Result KvError (Unit {0})
  pub sums : Result KvError (Unit {0})
  pub upsert : Result KvError (Unit {0})
  pub answer : CommitAnswer

unfoldable pub put_statements : KvNetwork → PgKv → Bytes → Bytes → Bytes → Result KvError HookKv
put_statements net s tenant key value = do
  net.begin
  net.lock
  net.sums
  used ← bigint (used_by tenant s.hook_kv)
  old ← bigint (old_of tenant key s.hook_kv)
  ensure (not (above_cap used old (pg_cost key value) s.tenant_cap_bytes))
      (quota_exceeded used (pg_cost key value) s.tenant_cap_bytes)
  net.upsert
  ok (insert (tenant, key) value s.hook_kv)

unfoldable pub commit_put : CommitAnswer → PgKv → HookKv → PgKv × Result KvError (Unit {0})
commit_put CommitAnswer.committed s after = (record s { hook_kv = after }, ok tt)
commit_put CommitAnswer.refused s after = (s, err (backend []))
commit_put CommitAnswer.lost_committed s after = (record s { hook_kv = after }, err (backend []))
commit_put CommitAnswer.lost_refused s after = (s, err (backend []))

unfoldable pub pg_put : KvNetwork → PgKv → Bytes → Bytes → Bytes → PgKv × Result KvError (Unit {0})
pg_put net s tenant key value = elim (put_statements net s tenant key value) [
  | err e ↦ (s, err e)
  | ok after ↦ commit_put net.answer s after
]

unfoldable pub pg_get :
    Result KvError (Unit {0}) → PgKv → Bytes → Bytes → Result KvError (Option Bytes)
pg_get net s tenant key = elim net [ err e ↦ err e | ok t ↦ ok (lookup (tenant, key) s.hook_kv) ]
