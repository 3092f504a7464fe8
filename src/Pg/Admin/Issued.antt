-- ===== src/Pg/Admin/Issued.antt =====
-- What `patch_tenant` of crates/core/src/pg/admin.rs leaves in the tables, and how the key that it
-- issues authenticates by crates/core/src/pg/auth.rs.
use warpline.Base.{
  ℕ, ◌≡◌, refl, List, [], ◌∷◌, Option, none, some, arith, if◌then◌else◌, ℤ, pos, Result, ok, Bytes,
  bytes_beq, bytes_eq, pair_eq, lookup, lookup-insert, lookup-insert_self,
}
use warpline.Types.Limits.{HostParser, Limits, Stored, InRange}
use warpline.Pg.Schema.{Uuid, TenantRow, Database, as_u64, tenant_by_id}
use warpline.Pg.Auth.{AuthOutcome, authorized, select_key, cached_of, outcome_for}
use warpline.Pg.Admin.{
  IssuedKey, LimitsPatch, unwrap_or, is_some, cols, upserted, Network, patch_tenant, tenant_limits,
}
use warpline.Pg.Admin.Rows.{tenant_by_id-insert, cols-InRange, checked_patch_lem}
use warpline.Pg.Admin.Patch.{patched, patch_tenant-Issues}

-- A column after a patch: the value given, else the one it had, else the default.
abbrev pub Column : Option ℕ → Option ℤ → ℕ → ℤ → Type 0
Column (some n) old default v = v ≡ pos n
Column none (some z) default v = v ≡ z
Column none none default v = v ≡ pos default

abbrev pub Hosts : HostParser → Option (List Bytes) → Option (List Bytes) → List Bytes → Type 0
Hosts parse (some hosts) old v = Stored parse hosts v
Hosts parse none (some hosts) v = v ≡ hosts
Hosts parse none none v = v ≡ []

abbrev pub column_of {ℓ} : {A : Type ℓ} → (TenantRow → A) → Option TenantRow → Option A
column_of f none = none
column_of f (some t) = some (f t)

-- The row under the patched name, column by column.
pub record IsMerged (parse : HostParser) (new_id : Uuid) (patch : LimitsPatch)
    (old : Option TenantRow) (row : TenantRow) : Type 0 where
  pub id_kept : row.id ≡ unwrap_or (column_of (λ t. t.id) old) new_id
  pub hosts :
      Hosts parse patch.allowed_hosts (column_of (λ t. t.allowed_hosts) old) row.allowed_hosts
  pub cpu : Column patch.cpu_budget_ms (column_of (λ t. t.cpu_budget_ms) old) 100 row.cpu_budget_ms
  pub mem :
      Column patch.mem_cap_bytes (column_of (λ t. t.mem_cap_bytes) old) 67108864 row.mem_cap_bytes

Stored-nil : (parse : HostParser) (hosts : List Bytes) → Stored parse [] hosts → hosts ≡ []
Stored-nil parse [] h = refl
Stored-nil parse (o ∷ os) h = absurd h

unwrap_or-Hosts :
    (parse : HostParser) (given : Option (List Bytes)) (old : Option (List Bytes)) (v : List Bytes)
    → Stored parse (unwrap_or given []) v
    → Hosts parse given old (if is_some given then v else unwrap_or old v)
unwrap_or-Hosts parse (some hosts) old v h = h
unwrap_or-Hosts parse none (some hosts) v h = refl
unwrap_or-Hosts parse none none v h = Stored-nil parse v h

unwrap_or-Column :
    (given : Option ℕ) (old : Option ℤ) (default : ℕ) (v : ℤ)
    → v ≡ pos (unwrap_or given default)
    → Column given old default (if is_some given then v else unwrap_or old v)
unwrap_or-Column (some n) old default v h = h
unwrap_or-Column none (some z) default v h = refl
unwrap_or-Column none none default v h = h

upserted-columns :
    (new_id : Uuid) (patch : LimitsPatch) (l : Limits) (old : Option TenantRow)
    → let row = upserted new_id patch l old in
      (row.id ≡ unwrap_or (column_of (λ t. t.id) old) new_id)
      × (row.allowed_hosts ≡ (
          if is_some patch.allowed_hosts
          then (cols l).0
          else unwrap_or (column_of (λ t. t.allowed_hosts) old) (cols l).0))
      × (row.cpu_budget_ms ≡ (
          if is_some patch.cpu_budget_ms
          then (cols l).1
          else unwrap_or (column_of (λ t. t.cpu_budget_ms) old) (cols l).1))
      × (row.mem_cap_bytes ≡ (
          if is_some patch.mem_cap_bytes
          then (cols l).2
          else unwrap_or (column_of (λ t. t.mem_cap_bytes) old) (cols l).2))
unfolding upserted
upserted-columns new_id patch l none = ground arith
upserted-columns new_id patch l (some t) = (refl, refl, refl, refl)

pub upserted-IsMerged :
    (parse : HostParser) (new_id : Uuid) (patch : LimitsPatch) (l : Limits) (old : Option TenantRow)
    → InRange l
    → l.cpu_budget_ms ≡ unwrap_or patch.cpu_budget_ms 100
    → l.mem_cap_bytes ≡ unwrap_or patch.mem_cap_bytes 67108864
    → Stored parse (unwrap_or patch.allowed_hosts []) l.allowed_hosts
    → IsMerged parse new_id patch old (upserted new_id patch l old)
upserted-IsMerged parse new_id patch l old range cpu mem hosts =
    let (id_eq, hosts_eq, cpu_eq, mem_eq) = upserted-columns new_id patch l old in
    let (c0, c1, c2) = cols-InRange l range in
    record {
      id_kept = id_eq;
      hosts = rw (hosts_eq, c0) (unwrap_or-Hosts parse patch.allowed_hosts _ l.allowed_hosts hosts);
      cpu = rw (cpu_eq, c1, cpu) (unwrap_or-Column patch.cpu_budget_ms _ 100 _ refl);
      mem = rw (mem_eq, c2, mem) (unwrap_or-Column patch.mem_cap_bytes _ 67108864 _ refl);
    }

abbrev pub limits_of : TenantRow → Limits
limits_of row = record {
  cpu_budget_ms = as_u64 row.cpu_budget_ms;
  mem_cap_bytes = as_u64 row.mem_cap_bytes;
  allowed_hosts = row.allowed_hosts;
}

pub tenant_limits-some :
    (d : Database) (name : Bytes) (row : TenantRow)
    → lookup name d.tenants ≡ some row
    → tenant_limits (ok tt) d name ≡ ok (some (limits_of row))
unfolding tenant_limits
tenant_limits-some d name row h = rw (h, tenant_limits) refl

pub outcome_for-select_key :
    (d : Database) (key name requested : Bytes) (row : TenantRow)
    → lookup key d.api_keys ≡ some row.id
    → tenant_by_id row.id d.tenants ≡ some (name, row)
    → outcome_for (cached_of (select_key d key)) requested
      ≡ (if bytes_beq name requested then authorized (limits_of row) else AuthOutcome.wrong_tenant)
unfolding select_key cached_of outcome_for
outcome_for-select_key d key name requested row h k =
    rw (h, select_key) (rw (k, select_key) (ground arith))

module _ (parse : HostParser) (digest hex_encode : Bytes → Bytes) where
  -- A call that issues a key changes only the given fields of the tenant's row, in range and with
  -- the hosts in normal form; a new row has the defaults where nothing is given. Other tenants'
  -- rows stay. The hash of the key was in no row, now belongs to the tenant, and every other key
  -- belongs to whom it did.
  pub patch_tenant-IsMerged :
      (net : Network) (new_id : Uuid) (random : Result Bytes Bytes) (d d' : Database) (name : Bytes)
      (patch : LimitsPatch) (key : IssuedKey) (other : Bytes)
      → patch_tenant parse digest hex_encode net new_id random d name patch ≡ (d', ok key)
      → ((row : TenantRow) × (lookup name d'.tenants ≡ some row)
          × IsMerged parse new_id patch (lookup name d.tenants) row
          × (lookup (digest key.api_key) d'.api_keys ≡ some row.id))
        × (lookup other d'.tenants
            ≡ (if bytes_beq name other then lookup name d'.tenants else lookup other d.tenants))
        × (lookup (digest key.api_key) d.api_keys ≡ none)
        × (lookup other d'.api_keys ≡ (
            if bytes_beq (digest key.api_key) other
            then lookup (digest key.api_key) d'.api_keys
            else lookup other d.api_keys))
  patch_tenant-IsMerged net new_id random d d' name patch key other e =
      let (l, i) =
        patch_tenant-Issues parse digest hex_encode net new_id random d d' name patch key e in
      let (range, cpu, mem, hosts) = checked_patch_lem parse patch l i.checked in
      let row = upserted new_id patch l (lookup name d.tenants) in
      (
        (
          row,
          rw i.after (lookup-insert_self name row d.tenants),
          upserted-IsMerged parse new_id patch l (lookup name d.tenants) range cpu mem hosts,
          rw i.after (lookup-insert_self (digest key.api_key) row.id d.api_keys),
        ),
        rw (i.after, lookup-insert_self name row d.tenants)
            (lookup-insert name other row d.tenants),
        i.accepted.new_key,
        rw (i.after, lookup-insert_self (digest key.api_key) row.id d.api_keys)
            (lookup-insert (digest key.api_key) other row.id d.api_keys),
      )

  -- A key that was issued for a tenant authorises a caller on that tenant, with the limits that
  -- `tenant_limits` reads, and no caller on another tenant.
  pub patch_tenant-authorized :
      (net : Network) (new_id : Uuid) (random : Result Bytes Bytes) (d d' : Database) (name : Bytes)
      (patch : LimitsPatch) (key : IssuedKey) (requested : Bytes)
      → patch_tenant parse digest hex_encode net new_id random d name patch ≡ (d', ok key)
      → (l : Limits) × (tenant_limits (ok tt) d' name ≡ ok (some l))
        × (outcome_for (cached_of (select_key d' (digest key.api_key))) requested
            ≡ (if bytes_beq name requested then authorized l else AuthOutcome.wrong_tenant))
  patch_tenant-authorized net new_id random d d' name patch key requested e =
      let (l, i) =
        patch_tenant-Issues parse digest hex_encode net new_id random d d' name patch key e in
      let row = upserted new_id patch l (lookup name d.tenants) in
      (
        limits_of row,
        rw i.after (
            tenant_limits-some (patched row name (digest key.api_key) d) name row
              (lookup-insert_self name row d.tenants)),
        rw i.after (
            outcome_for-select_key (patched row name (digest key.api_key) d) (digest key.api_key)
              name requested row (lookup-insert_self (digest key.api_key) row.id d.api_keys)
              (tenant_by_id-insert name row d.tenants i.accepted.own_id)),
      )
