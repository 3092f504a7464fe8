-- ===== src/Pg/Auth.antt =====
-- `Authenticator` of crates/core/src/pg/auth.rs: bearer keys through a cache with a freshness window,
-- and what is served while the database is away. A duration is a number of nanoseconds and an
-- `Instant` one since some start.
pub mod Cases
pub mod Recent
use warpline.Base.{
  ℕ, zero, suc, ◌+◌, ◌-◌, ◌*◌, ◌/◌, ◌%◌, ◌^◌, ◌≤◌, ◌<◌, min, max, ◌≡◌, refl, sym, ap, ◌∙◌, ◌≢◌, ◌↔◌,
  ◌⊎◌, inl, inr, Bool, true, false, not, ◌&&◌, ◌||◌, List, [], ◌∷◌, ◌++◌, map, Option, none, some,
  arith, ltb, leb, ◌==◌, if◌then◌else◌, ltb→lt, lt→ltb, leb→le, le→leb, ==_iff, Bool-cases,
  Option-cases, Bool-eq_of_iff, length, take, drop, replicate, length-append, length-take,
  take-append-drop, all, any, All, keep, sum_by, length-keep-le, word_mod, word_max, i64_max,
  wrapping_add, wrapping_sub, wrapping_mul, saturating_sub, saturating_add, ℤ, pos, negsuc,
  in_range, i64_or_max, Result, ok, err, ◌>>=◌, ◌>>◌, map_err, ok_or, ensure, is_ok, Result-cases,
  Eq, Bytes, bytes_beq, bytes_beq_iff, bytes_eq, pair_beq, pair_beq_iff, pair_eq, lookup, insert,
  remove, lookup-insert, lookup-remove, lookup-insert_self, weigh, weight_at, weigh-insert,
  weight_at-le,
}
use warpline.Types.Limits.{Limits}
use warpline.Registry.Lru.{Lru}
use warpline.Pg.Schema.{SqlError, Database, TenantRow, tenant_by_id, as_u64}

abbrev pub min_stale_window : ℕ
min_stale_window = 5 * 60 * 1_000_000_000

abbrev pub cache_cap : ℕ
cache_cap = 10_000

pub data AuthOutcome : Type 0 where
  authorized : Limits → AuthOutcome
  missing_or_unknown_key wrong_tenant : AuthOutcome

-- `AuthError::Db`.
pub data AuthError : Type 0 where
  db : SqlError → AuthError

-- Tenant name, allowed_hosts, cpu_budget_ms, mem_cap_bytes.
abbrev pub AuthRow : Type 0
AuthRow = Bytes × List Bytes × ℤ × ℤ

pub data Cached : Type 0 where
  found : (tenant : Bytes) (limits : Limits) → Cached
  unknown : Cached

-- `SELECT … FROM api_keys k JOIN tenants t ON t.id = k.tenant_id WHERE k.key_hash = $1`.
unfoldable pub select_key : Database → Bytes → Option AuthRow
select_key d key_hash = elim (lookup key_hash d.api_keys) [
  | none ↦ none
  | some id ↦ elim (tenant_by_id id d.tenants) [
    | none ↦ none
    | some (name, t) ↦ some (name, t.allowed_hosts, t.cpu_budget_ms, t.mem_cap_bytes)
  ]
]

-- What a row is cached as.
unfoldable pub cached_of : Option AuthRow → Cached
cached_of none = unknown
cached_of (some (tenant, allowed_hosts, cpu, mem)) = found tenant (record {
  cpu_budget_ms = as_u64 cpu;
  mem_cap_bytes = as_u64 mem;
  allowed_hosts = allowed_hosts;
})

unfoldable pub outcome_for : Cached → Bytes → AuthOutcome
outcome_for unknown requested = missing_or_unknown_key
outcome_for (found tenant limits) requested =
    if not (bytes_beq tenant requested) then wrong_tenant else authorized limits

-- The window in which an entry past its TTL may stand in for the database.
unfoldable pub stale_window : ℕ → ℕ
stale_window ttl = max (ttl * 10) min_stale_window

-- The three moments at which a call reads the clock.
pub record Clock : Type 0 where
  pub first : ℕ
  pub second : ℕ
  pub stored : ℕ

pub data Hit : Type 0 where
  fresh : Cached → Hit
  stale : Option Cached → Hit

module _ (c : Lru (ℕ × Cached)) (digest : Bytes → Bytes) where
  pub record Authenticator : Type 0 where
    pub ttl : ℕ
    pub cache : c.State

  -- `Authenticator::new`.
  unfoldable pub new_authenticator : ℕ → Authenticator
  new_authenticator ttl = record { ttl = ttl; cache = c.new cache_cap }

  -- What an entry is worth now.
  unfoldable pub hit_of : ℕ → Clock → Option (ℕ × Cached) → Hit
  hit_of ttl clock none = stale none
  hit_of ttl clock (some (at, cached)) =
      if ltb (saturating_sub clock.first at) ttl
      then fresh cached
      else if ltb (saturating_sub clock.second at) (stale_window ttl)
      then stale (some cached)
      else stale none

  -- The answer of the database, or its failure with what is left of the cache.
  unfoldable pub ask :
      Authenticator
      → Clock
      → Result SqlError (Option AuthRow)
      → Bytes
      → Bytes
      → Option Cached
      → Authenticator × Result AuthError AuthOutcome
  ask a clock (err e) tenant key_hash (some cached) = (a, ok (outcome_for cached tenant))
  ask a clock (err e) tenant key_hash none = (a, err (db e))
  ask a clock (ok row) tenant key_hash old =
      let cached = cached_of row in
      (
        if a.ttl == 0
            then a
            else record a { cache = (c.put key_hash (clock.stored, cached) a.cache).0 },
        ok (outcome_for cached tenant),
      )

  unfoldable pub use_hit :
      Authenticator
      → Clock
      → Result SqlError (Option AuthRow)
      → Bytes
      → Bytes
      → Hit
      → Authenticator × Result AuthError AuthOutcome
  use_hit a clock answer tenant key_hash (fresh cached) = (a, ok (outcome_for cached tenant))
  use_hit a clock answer tenant key_hash (stale old) = ask a clock answer tenant key_hash old

  -- `answer` is what the query gives when it is sent, `LOOKUP_TIMEOUT` included.
  unfoldable pub authenticate :
      Authenticator
      → Clock
      → Result SqlError (Option AuthRow)
      → Bytes
      → Option Bytes
      → Authenticator × Result AuthError AuthOutcome
  authenticate a clock answer tenant none = (a, ok missing_or_unknown_key)
  authenticate a clock answer tenant (some token) =
      let key_hash = digest token in
      if a.ttl == 0
      then ask a clock answer tenant key_hash none
      else let r = c.get key_hash a.cache in
        use_hit (record a { cache = r.0 }) clock answer tenant key_hash (hit_of a.ttl clock r.1)
