-- ===== src/Examples/Pg.antt =====
-- Tests of the Postgres parts, and their theorems applied at concrete inputs.
use warpline.Base.{
  All, ℕ, ◌*◌, ◌≡◌, refl, ◌≢◌, false, List, [], ◌∷◌, Option, none, some, arith, if◌then◌else◌, pos,
  Result, ok, err, Bytes, bytes_beq, bytes_eq, pair_eq, lookup, insert, remove,
}
use warpline.Base.Text.{codes}
use warpline.Base.Trim.{trim_end}
use warpline.Types.Names.{valid_name, is_head, is_tail}
use warpline.Types.Limits.{
  Limits, Stored, default_limits, new_limits, with_allowed_hosts, validate_cpu_budget_ms,
  validate_mem_cap_bytes, validate_allowed_hosts, normalise_hosts, trim_end_dots,
}
use warpline.Registry.Lru.{Lru}
use warpline.Examples.ListLru.{list_lru}
use warpline.Examples.Registry.{acme, hello}
use warpline.Pg.Schema.{
  SqlError, unavailable, TenantRow, Database, tenant_by_id, checks, committed, lost_committed,
  commit,
}
use warpline.Pg.Auth.{
  AuthOutcome, authorized, missing_or_unknown_key, AuthError, AuthRow, Cached, select_key,
  cached_of, outcome_for, Clock, Authenticator, new_authenticator, authenticate, hit_of, use_hit,
  ask, stale_window,
}
use warpline.Pg.Auth.Cases.{Answers, held, authenticate_cases}
use warpline.Pg.Auth.Recent.{Call, serve, AllRecent, serve-AllRecent}
use warpline.Pg.Admin.{
  IssuedKey, LimitsPatch, empty_patch, Network, patch_tenant, tenant_limits, set_limits,
  checked_patch, checked_limits, cols, upserted, upsert_tenant, insert_key, patch_statements,
  patch_transaction, updated, update_tenant,
}
use warpline.Pg.Admin.Issued.{IsMerged, patch_tenant-IsMerged, patch_tenant-authorized}
use warpline.Pg.Admin.Stored.{Transacts, patch_tenant-Transacts, tenant_limits-set_limits}
use warpline.Pg.Admin.Sound.{IsSound}
use warpline.Pg.Admin.Passes.{
  AdminCall, patch_call, set_call, OnlyTables, AllPass, administer-AllPass,
}

-- One tenant with one key; keys are their own hashes.
abbrev pub row : TenantRow
row = record {
  id = codes "id-1";
  allowed_hosts = [];
  cpu_budget_ms = pos 100;
  mem_cap_bytes = pos 67108864;
}

abbrev pub tables : Database
tables = record {
  tenants = (acme, row) ∷ [];
  api_keys = (codes "old", codes "id-1") ∷ [];
  functions = [];
}

abbrev pub keys : Lru (ℕ × Cached)
keys = list_lru (ℕ × Cached)

abbrev pub plain : Bytes → Bytes
plain b = b

-- One second, and a call at a number of seconds.
abbrev pub second_ns : ℕ
second_ns = 1_000_000_000

abbrev pub at_second : ℕ → Clock
at_second n = record { first = n * second_ns; second = n * second_ns; stored = n * second_ns }

abbrev authenticator : Authenticator keys plain
authenticator = new_authenticator keys plain (30 * second_ns)

abbrev answer_now : Result SqlError (Option AuthRow)
answer_now = ok (select_key tables (codes "old"))

abbrev call_at : ℕ → Result SqlError (Option AuthRow) → Call
call_at n answer = record {
  clock = at_second n;
  answer = answer;
  tenant = acme;
  token = codes "old";
}

-- Answered by the database, by the fresh entry, by the stale one while the database is away, and
-- not at all once that is too old.
abbrev calls : List Call
calls =
    call_at 10 answer_now
    ∷ call_at 20 (err unavailable)
    ∷ call_at 200 (err unavailable)
    ∷ call_at 400 (err unavailable)
    ∷ []

served :
    serve keys plain authenticator calls
    ≡ ok (authorized default_limits)
      ∷ ok (authorized default_limits)
      ∷ ok (authorized default_limits)
      ∷ err (AuthError.db unavailable)
      ∷ []
unfolding serve authenticate hit_of use_hit ask stale_window new_authenticator lookup insert remove
    cached_of outcome_for select_key tenant_by_id
served = refl

serve-AllRecent_example :
    AllRecent
      (λ t. tables)
      0
      keys
      plain
      (30 * second_ns)
      calls
      (serve keys plain authenticator calls)
serve-AllRecent_example =
    serve-AllRecent (λ t. tables) 0 keys plain (30 * second_ns) calls
      (
        (10 * second_ns, omega arith, refl),
        omega arith,
        omega arith,
        (
          tt,
          omega arith,
          omega arith,
          (tt, omega arith, omega arith, (tt, omega arith, omega arith, tt)),
        ),
      )

authenticate_cases_example :
    Answers
      (30 * second_ns)
      (at_second 10)
      (held keys plain authenticator (codes "old"))
      answer_now
      acme
      (authenticate keys plain authenticator (at_second 10) answer_now acme (some (codes "old"))).1
    × ((authenticate keys plain authenticator (at_second 10) answer_now acme none).1
        ≡ ok missing_or_unknown_key)
unfolding new_authenticator
authenticate_cases_example =
    authenticate_cases keys plain authenticator (at_second 10) answer_now acme (codes "old")

abbrev pub up : Network
up = record { begin = ok tt; first = ok tt; second = ok tt; answer = committed }

abbrev down : Network
down = record up { answer = lost_committed }

abbrev patch : LimitsPatch
patch = record {
  allowed_hosts = some (codes "api.example.com" ∷ []);
  cpu_budget_ms = none;
  mem_cap_bytes = none;
}

abbrev issued : IssuedKey
issued = record { tenant = acme; api_key = codes "wl_new" }

abbrev after_patch : Database
after_patch = record tables {
  tenants = (acme, record row { allowed_hosts = codes "api.example.com" ∷ [] }) ∷ [];
  api_keys = (codes "old", codes "id-1") ∷ (codes "wl_new", codes "id-1") ∷ [];
}

patched_now :
    patch_tenant some plain plain up (codes "id-2") (ok (codes "new")) tables acme patch
    ≡ (after_patch, ok issued)
unfolding patch_tenant patch_transaction patch_statements upsert_tenant insert_key upserted cols
    checked_patch new_limits with_allowed_hosts validate_cpu_budget_ms validate_mem_cap_bytes
    validate_allowed_hosts normalise_hosts trim_end_dots trim_end valid_name is_head is_tail lookup
    insert checks commit
patched_now = refl

patch_tenant-IsMerged_example :
    ((r : TenantRow) × (lookup acme after_patch.tenants ≡ some r)
      × IsMerged some (codes "id-2") patch (lookup acme tables.tenants) r
      × (lookup (plain issued.api_key) after_patch.api_keys ≡ some r.id))
    × (lookup hello after_patch.tenants ≡ (
        if bytes_beq acme hello
        then lookup acme after_patch.tenants
        else lookup hello tables.tenants))
    × (lookup (plain issued.api_key) tables.api_keys ≡ none)
    × (lookup hello after_patch.api_keys ≡ (
        if bytes_beq (plain issued.api_key) hello
        then lookup (plain issued.api_key) after_patch.api_keys
        else lookup hello tables.api_keys))
patch_tenant-IsMerged_example =
    patch_tenant-IsMerged some plain plain up (codes "id-2") (ok (codes "new")) tables after_patch
      acme patch issued hello patched_now

patch_tenant-authorized_example :
    (l : Limits) × (tenant_limits (ok tt) after_patch acme ≡ ok (some l))
    × (outcome_for (cached_of (select_key after_patch (plain issued.api_key))) acme
        ≡ (if bytes_beq acme acme then authorized l else AuthOutcome.wrong_tenant))
patch_tenant-authorized_example =
    patch_tenant-authorized some plain plain up (codes "id-2") (ok (codes "new")) tables after_patch
      acme patch issued acme patched_now

patch_tenant-Transacts_example :
    Transacts some plain plain down
      (codes "id-2")
      tables
      acme
      patch
      (patch_tenant some plain plain down (codes "id-2") (ok (codes "new")) tables acme patch)
patch_tenant-Transacts_example =
    patch_tenant-Transacts some plain plain down (codes "id-2") (ok (codes "new")) tables acme patch

abbrev limits : Limits
limits = record { cpu_budget_ms = 250; mem_cap_bytes = 1048576; allowed_hosts = [] }

abbrev after_set : Database
after_set = record tables {
  tenants = (acme, record row { cpu_budget_ms = pos 250; mem_cap_bytes = pos 1048576 }) ∷ [];
}

set_now : set_limits some committed tables acme limits ≡ (after_set, ok tt)
unfolding set_limits checked_limits update_tenant updated cols new_limits with_allowed_hosts
    validate_cpu_budget_ms validate_mem_cap_bytes validate_allowed_hosts normalise_hosts lookup
    insert checks commit
set_now = refl

other_name : bytes_beq acme hello ≡ false
other_name = refl

tenant_limits-set_limits_example :
    ((l : Limits) × (tenant_limits (ok tt) after_set acme ≡ ok (some l))
      × (l.cpu_budget_ms ≡ 250)
      × (l.mem_cap_bytes ≡ 1048576)
      × Stored some [] l.allowed_hosts)
    × (lookup acme tables.tenants ≢ none)
    × (tenant_limits (ok tt) after_set hello ≡ tenant_limits (ok tt) tables hello)
    × (after_set.api_keys ≡ tables.api_keys)
tenant_limits-set_limits_example =
    tenant_limits-set_limits some committed tables after_set acme hello limits set_now other_name

tables-IsSound : IsSound tables
unfolding checks tenant_by_id
tables-IsSound = record {
  rows = (record { cpu = omega arith; mem = omega arith }, tt);
  keys = (refl, tt);
}

abbrev admin_calls : List AdminCall
admin_calls =
    patch_call down (codes "id-2") (ok (codes "new")) acme patch
    ∷ patch_call up (codes "id-1") (ok (codes "new")) hello empty_patch
    ∷ set_call committed acme limits
    ∷ []

admin_calls-OnlyTables : All OnlyTables admin_calls
admin_calls-OnlyTables = (
  record { begin = ground arith; first = ground arith; second = ground arith },
  (record { begin = ground arith; first = ground arith; second = ground arith }, (tt, tt)),
)

administer-AllPass_example : AllPass some plain plain admin_calls tables
administer-AllPass_example =
    administer-AllPass some plain plain admin_calls tables admin_calls-OnlyTables tables-IsSound
