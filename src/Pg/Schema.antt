-- ===== src/Pg/Schema.antt =====
-- The tables of crates/core/migrations/0001_warpline.sql that the statements of crates/core/src/pg
-- and crates/control/src/lib.rs read and write, with the constraints of their columns.
use warpline.Base.{
  ℕ, ◌+◌, ◌-◌, ◌%◌, ◌^◌, Bool, ◌&&◌, List, [], ◌∷◌, Option, none, some, ltb, if◌then◌else◌,
  word_max, ℤ, pos, negsuc, in_range, Result, ok, err, Bytes, bytes_beq, bytes_eq, pair_eq,
}

-- What `sqlx::Error` is told apart by here: a statement that a constraint refuses, and every
-- failure of the connection, a timeout included.
pub data SqlError : Type 0 where
  constraint unavailable : SqlError

abbrev pub Uuid : Type 0
Uuid = Bytes

-- `warpline.tenants`.
pub record TenantRow : Type 0 where
  pub id : Uuid
  pub allowed_hosts : List Bytes
  pub cpu_budget_ms : ℤ
  pub mem_cap_bytes : ℤ

-- `warpline.meter`, but for its serial number.
pub record MeterRow : Type 0 where
  pub tenant : Bytes
  pub func : Bytes
  pub cpu_us : ℤ
  pub wall_us : ℤ
  pub mem_peak_bytes : ℤ
  pub row_ok : Bool

-- `tenants` by its UNIQUE name, `api_keys` and `functions` by their primary keys.
pub record Database : Type 0 where
  pub tenants : List (Bytes × TenantRow)
  pub api_keys : List (Bytes × Uuid)
  pub functions : List ((Uuid × Bytes) × Bytes)

-- The tenant with an id, as the joins of `api_keys` and `functions` find it.
unfoldable pub tenant_by_id : Uuid → List (Bytes × TenantRow) → Option (Bytes × TenantRow)
tenant_by_id id [] = none
tenant_by_id id ((name, t) ∷ l) = if bytes_beq t.id id then some (name, t) else tenant_by_id id l

-- The CHECK constraints of `tenants`.
unfoldable pub checks : TenantRow → Bool
checks t = in_range 1 10000 t.cpu_budget_ms && in_range 1048576 536870912 t.mem_cap_bytes

-- `as i32` and `as i64` of a word, and `as u64` of a signed number.
abbrev pub as_signed : ℕ → ℕ → ℤ
as_signed half n =
    let m = n % (half + half) in if ltb m half then pos m else negsuc (half + half - m - 1)

abbrev pub as_i32 : ℕ → ℤ
as_i32 n = as_signed (2 ^ 31) n

abbrev pub as_i64 : ℕ → ℤ
as_i64 n = as_signed (2 ^ 63) n

abbrev pub as_u64 : ℤ → ℕ
as_u64 (pos n) = n
as_u64 (negsuc n) = word_max - n

-- What the client of a transaction learns of its commit: the answer may be lost on the way, and
-- then the server may have committed or not.
pub data CommitAnswer : Type 0 where
  committed refused lost_committed lost_refused : CommitAnswer

unfoldable pub commit : CommitAnswer → Database → Database → Database × Result SqlError (Unit {0})
commit committed before after = (after, ok tt)
commit refused before after = (before, err unavailable)
commit lost_committed before after = (after, err unavailable)
commit lost_refused before after = (before, err unavailable)
