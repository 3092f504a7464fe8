-- ===== src/Pg/Admin.antt =====
-- crates/core/src/pg/admin.rs: tenants, their keys and limits, and the totals of their usage. What
-- the network does to a transaction is an argument.
pub mod Rows
pub mod Patch
pub mod Stored
pub mod Columns
pub mod Sound
pub mod Refused
pub mod Passes
pub mod Issued
use warpline.Base.{
  ℕ, zero, suc, ◌+◌, ◌-◌, ◌*◌, ◌/◌, ◌%◌, ◌^◌, ◌≤◌, ◌<◌, min, max, ◌≡◌, refl, sym, ap, ◌∙◌, ◌≢◌, ◌↔◌,
  ◌⊎◌, inl, inr, Bool, true, false, not, ◌&&◌, ◌||◌, List, [], ◌∷◌, ◌++◌, map, Option, none, some,
  arith, ltb, leb, ◌==◌, if◌then◌else◌, ltb→lt, lt→ltb, leb→le, le→leb, ==_iff, Bool-cases,
  Option-cases, Bool-eq_of_iff, length, take, drop, replicate, length-append, length-take,
  take-append-drop, all, any, All, keep, sum_by, length-keep-le, word_mod, word_max, i64_max,
  wrapping_add, wrapping_sub, wrapping_mul, saturating_sub, saturating_add, ℤ, pos, negsuc,
  in_range, i64_or_max, Result, ok, err, ◌>>=◌, ◌>>◌, map_err, ok_or, ensure, is_ok, Result-cases,
  Eq, Bytes, bytes_beq, bytes_beq_iff, bytes_eq, pair_beq, pair_beq_iff, pair_eq, lookup, insert,
  remove, lookup-insert, lookup-remove, lookup-insert_self, weigh, weight_at, weigh-insert,
  weight_at-le,
}
use warpline.Base.Text.{codes}
use warpline.Types.Names.{valid_name}
use warpline.Types.Limits.{
  ConfigError, HostParser, Limits, default_limits, new_limits, with_allowed_hosts,
}
use warpline.Pg.Schema.{
  SqlError, constraint, unavailable, Uuid, TenantRow, MeterRow, Database, checks, as_i32, as_i64,
  as_u64, CommitAnswer, commit,
}

pub data AdminError : Type 0 where
  invalid_name : AdminError
  config : ConfigError → AdminError
  no_such_tenant : Bytes → AdminError
  rng : Bytes → AdminError
  sql : SqlError → AdminError

pub record IssuedKey : Type 0 where
  pub tenant : Bytes
  pub api_key : Bytes

pub record LimitsPatch : Type 0 where
  pub allowed_hosts : Option (List Bytes)
  pub cpu_budget_ms : Option ℕ
  pub mem_cap_bytes : Option ℕ

-- `LimitsPatch::default`, and `LimitsPatch::from`.
abbrev pub empty_patch : LimitsPatch
empty_patch = record { allowed_hosts = none; cpu_budget_ms = none; mem_cap_bytes = none }

unfoldable pub patch_of : Limits → LimitsPatch
patch_of l = record {
  allowed_hosts = some l.allowed_hosts;
  cpu_budget_ms = some l.cpu_budget_ms;
  mem_cap_bytes = some l.mem_cap_bytes;
}

-- `unwrap_or`, and `is_some`.
abbrev pub unwrap_or {ℓ} : {A : Type ℓ} → Option A → A → A
unwrap_or none d = d
unwrap_or (some a) d = a

abbrev pub is_some {ℓ} : {A : Type ℓ} → Option A → Bool
is_some none = false
is_some (some a) = true

unfoldable pub cols : Limits → List Bytes × ℤ × ℤ
cols l = (l.allowed_hosts, as_i32 l.cpu_budget_ms, as_i64 l.mem_cap_bytes)

-- `Limits::new(cpu, mem)?.with_allowed_hosts(hosts)?` on the values of a patch over the defaults.
unfoldable pub checked_patch : HostParser → LimitsPatch → Result ConfigError Limits
checked_patch parse patch = do
  limits ←
      new_limits (unwrap_or patch.cpu_budget_ms default_limits.cpu_budget_ms)
        (unwrap_or patch.mem_cap_bytes default_limits.mem_cap_bytes)
  with_allowed_hosts parse limits (unwrap_or patch.allowed_hosts [])

-- The row that the upsert leaves under the name: `EXCLUDED`, or the CASE of each column.
unfoldable pub upserted : Uuid → LimitsPatch → Limits → Option TenantRow → TenantRow
upserted new_id patch l none = record {
  id = new_id;
  allowed_hosts = (cols l).0;
  cpu_budget_ms = (cols l).1;
  mem_cap_bytes = (cols l).2;
}
upserted new_id patch l (some t) = record t {
  allowed_hosts = (if is_some patch.allowed_hosts then (cols l).0 else t.allowed_hosts);
  cpu_budget_ms = (if is_some patch.cpu_budget_ms then (cols l).1 else t.cpu_budget_ms);
  mem_cap_bytes = (if is_some patch.mem_cap_bytes then (cols l).2 else t.mem_cap_bytes);
}

-- `INSERT INTO tenants … ON CONFLICT (name) DO UPDATE … RETURNING id`; `new_id` is the default of
-- the column, which must not be another row's.
unfoldable pub upsert_tenant :
    Uuid → LimitsPatch → Limits → Bytes → Database → Result SqlError (Database × Uuid)
upsert_tenant new_id patch l name d =
    let row = upserted new_id patch l (lookup name d.tenants) in
    if any (λ e. bytes_beq e.1.id row.id && not (bytes_beq e.0 name)) d.tenants
    then err constraint
    else if checks row
    then ok (record d { tenants = insert name row d.tenants }, row.id)
    else err constraint

-- `INSERT INTO api_keys (key_hash, tenant_id) VALUES ($1, $2)`.
unfoldable pub insert_key : Bytes → Uuid → Database → Result SqlError Database
insert_key key_hash id d = elim (lookup key_hash d.api_keys) [
  | some other ↦ err constraint
  | none ↦ ok (record d { api_keys = insert key_hash id d.api_keys })
]

-- Does the network carry each step of the transaction?
pub record Network : Type 0 where
  pub begin : Result SqlError (Unit {0})
  pub first : Result SqlError (Unit {0})
  pub second : Result SqlError (Unit {0})
  pub answer : CommitAnswer

-- The statements between `begin` and `commit`.
unfoldable pub patch_statements :
    Network → Uuid → LimitsPatch → Limits → Bytes → Bytes → Database → Result SqlError Database
patch_statements net new_id patch l name key_hash d = do
  net.begin
  net.first
  upserted_row ← upsert_tenant new_id patch l name d
  net.second
  insert_key key_hash upserted_row.1 upserted_row.0

abbrev pub committed_key :
    Bytes → Bytes → Database × Result SqlError (Unit {0}) → Database × Result AdminError IssuedKey
committed_key name api_key (d, ok t) = (d, ok (record { tenant = name; api_key = api_key }))
committed_key name api_key (d, err e) = (d, err (sql e))

unfoldable pub patch_transaction :
    Network
    → Uuid
    → LimitsPatch
    → Limits
    → Bytes
    → Bytes
    → Bytes
    → Database
    → Database × Result AdminError IssuedKey
patch_transaction net new_id patch l name api_key key_hash d =
    elim (patch_statements net new_id patch l name key_hash d) [
      | err e ↦ (d, err (sql e))
      | ok after ↦ committed_key name api_key (commit net.answer d after)
    ]

-- The url crate's parser, SHA-256 in hexadecimal, and `hex::encode`.
module _ (parse : HostParser) (digest hex_encode : Bytes → Bytes) where
  -- `random` is what `getrandom::fill` gives: 32 bytes, or the text of its failure.
  unfoldable pub patch_tenant :
      Network
      → Uuid
      → Result Bytes Bytes
      → Database
      → Bytes
      → LimitsPatch
      → Database × Result AdminError IssuedKey
  patch_tenant net new_id random d name patch =
      if not (valid_name name) then (d, err invalid_name) else elim (checked_patch parse patch) [
        | err e ↦ (d, err (config e))
        | ok checked ↦ elim random [
          | err e ↦ (d, err (rng e))
          | ok key_bytes ↦
              let api_key = codes "wl_" ++ hex_encode key_bytes in
              patch_transaction net new_id patch checked name api_key (digest api_key) d
        ]
      ]

  unfoldable pub create_tenant :
      Network
      → Uuid
      → Result Bytes Bytes
      → Database
      → Bytes
      → Option Limits
      → Database × Result AdminError IssuedKey
  create_tenant net new_id random d name none = patch_tenant net new_id random d name empty_patch
  create_tenant net new_id random d name (some l) =
      patch_tenant net new_id random d name (patch_of l)

-- `SELECT allowed_hosts, cpu_budget_ms, mem_cap_bytes FROM tenants WHERE name = $1`.
unfoldable pub tenant_limits :
    Result SqlError (Unit {0}) → Database → Bytes → Result AdminError (Option Limits)
tenant_limits net d name = elim net [
  | err e ↦ err (sql e)
  | ok t ↦ elim (lookup name d.tenants) [
    | none ↦ ok none
    | some row ↦ ok (
        some (record {
          cpu_budget_ms = as_u64 row.cpu_budget_ms;
          mem_cap_bytes = as_u64 row.mem_cap_bytes;
          allowed_hosts = row.allowed_hosts;
        }))
  ]
]

-- The row that `UPDATE tenants SET …` writes.
unfoldable pub updated : Limits → TenantRow → TenantRow
updated l row = record row {
  allowed_hosts = (cols l).0;
  cpu_budget_ms = (cols l).1;
  mem_cap_bytes = (cols l).2;
}

-- `commit net` is the answer to the single statement, which commits by itself.
unfoldable pub update_tenant :
    CommitAnswer → Database → Bytes → Limits → Database × Result AdminError (Unit {0})
update_tenant net d name l = elim (lookup name d.tenants) [
  | none ↦ (d, elim (commit net d d).1 [ ok t ↦ err (no_such_tenant name) | err e ↦ err (sql e) ])
  | some row ↦
      if checks (updated l row)
      then (let r = commit net d (record d { tenants = insert name (updated l row) d.tenants }) in
          (r.0, map_err sql r.1))
      else (d, err (sql constraint))
]

-- `Limits::new(cpu, mem)?.with_allowed_hosts(hosts)?` on the limits given.
unfoldable pub checked_limits : HostParser → Limits → Result ConfigError Limits
checked_limits parse limits = do
  l ← new_limits limits.cpu_budget_ms limits.mem_cap_bytes
  with_allowed_hosts parse l limits.allowed_hosts

unfoldable pub set_limits :
    HostParser → CommitAnswer → Database → Bytes → Limits → Database × Result AdminError (Unit {0})
set_limits parse net d name limits = elim (checked_limits parse limits) [
  | err e ↦ (d, err (config e))
  | ok l ↦ update_tenant net d name l
]
