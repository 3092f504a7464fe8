-- ===== src/Pg/Admin/Stored.antt =====
-- The transaction of `patch_tenant`, and limits read back after `set_limits`, of
-- crates/core/src/pg/admin.rs.
use warpline.Base.{
  ◌≡◌, refl, ◌∙◌, ◌≢◌, ◌⊎◌, inl, inr, true, false, [], ◌++◌, none, some, arith, Bool-cases,
  Option-cases, Result, ok, err, is_ok, Result-cases, Bytes, bytes_beq, bytes_eq, pair_eq, lookup,
  insert, lookup-insert, lookup-insert_self,
}
use warpline.Base.Text.{codes}
use warpline.Types.Names.{valid_name}
use warpline.Types.Limits.{
  HostParser, Limits, new_limits_cases, with_allowed_hosts-Stored, Stored, InRange,
}
use warpline.Pg.Schema.{
  unavailable, Uuid, TenantRow, Database, checks, CommitAnswer, committed, refused, lost_committed,
  lost_refused, commit,
}
use warpline.Pg.Admin.{
  AdminError, sql, IssuedKey, LimitsPatch, checked_patch, upserted, Network, patch_statements,
  committed_key, patch_transaction, patch_tenant, tenant_limits, updated, update_tenant,
  checked_limits, set_limits,
}
use warpline.Pg.Admin.Rows.{cols-InRange}
use warpline.Pg.Admin.Patch.{patched, IsAccepted, patch_statements-ok}
use warpline.Pg.Admin.Issued.{limits_of, tenant_limits-some}

module _ (parse : HostParser) (digest hex_encode : Bytes → Bytes) where
  -- A call leaves the tables as they were, without a key, or it does all of its writes; then it
  -- issues its key or the answer to the commit was lost.
  abbrev pub Transacts :
      Network
      → Uuid
      → Database
      → Bytes
      → LimitsPatch
      → Database × Result AdminError IssuedKey
      → Type 0
  Transacts net new_id d name patch r =
      ((r.0 ≡ d) × (is_ok r.1 ≡ false))
      ⊎ ((l : Limits) × (key : Bytes) × IsAccepted (upserted new_id patch l (lookup name d.tenants))
            name key d
          × (r.0 ≡ patched (upserted new_id patch l (lookup name d.tenants)) name key d)
          × (((net.answer ≡ committed) × (is_ok r.1 ≡ true))
              ⊎ ((net.answer ≡ lost_committed) × (r.1 ≡ err (sql unavailable)))))

  committed-Transacts :
      (net : Network) (new_id : Uuid) (d : Database) (name : Bytes) (patch : LimitsPatch)
      (l : Limits) (api_key key : Bytes) (answer : CommitAnswer)
      → net.answer ≡ answer
      → let row = upserted new_id patch l (lookup name d.tenants) in
        IsAccepted row name key d
        → Transacts net new_id d name patch
            (committed_key name api_key (commit answer d (patched row name key d)))
  unfolding commit
  committed-Transacts net new_id d name patch l api_key key committed e a =
      inr (l, key, a, refl, inl (e, refl))
  committed-Transacts net new_id d name patch l api_key key refused e a = inl (refl, refl)
  committed-Transacts net new_id d name patch l api_key key lost_committed e a =
      inr (l, key, a, refl, inr (e, refl))
  committed-Transacts net new_id d name patch l api_key key lost_refused e a = inl (refl, refl)

  transaction-Transacts :
      (net : Network) (new_id : Uuid) (d : Database) (name : Bytes) (patch : LimitsPatch)
      (l : Limits) (api_key key : Bytes)
      → Transacts net new_id d name patch (patch_transaction net new_id patch l name api_key key d)
  unfolding patch_transaction
  transaction-Transacts net new_id d name patch l api_key key =
      elim (Result-cases (patch_statements net new_id patch l name key d)) [
        | inr (x, f) ↦ rw (f, patch_transaction) (inl (refl, refl))
        | inl (after, f) ↦
            let (a, made) = patch_statements-ok net new_id patch l name key d after f in
            rw (f, patch_transaction)
              (rw made
                (committed-Transacts net new_id d name patch l api_key key net.answer refl a))
      ]

  -- A call of `patch_tenant` is one transaction: either it leaves the tables as they were and
  -- issues no key, or it makes both writes. Then the commit succeeded and the key is issued, or the
  -- server committed and its answer was lost, and the call fails.
  pub patch_tenant-Transacts :
      (net : Network) (new_id : Uuid) (random : Result Bytes Bytes) (d : Database) (name : Bytes)
      (patch : LimitsPatch)
      → Transacts net new_id d name patch
          (patch_tenant parse digest hex_encode net new_id random d name patch)
  unfolding patch_tenant
  patch_tenant-Transacts net new_id random d name patch = elim (Bool-cases (valid_name name)) [
    | inr bad ↦ rw bad (inl (refl, refl))
    | inl good ↦ elim (Result-cases (checked_patch parse patch)) [
      | inr (x, f) ↦ rw (good, f) (inl (refl, refl))
      | inl (l, f) ↦ elim (Result-cases random) [
        | inr (x, g) ↦ rw (good, f, g) (inl (refl, refl))
        | inl (bytes, g) ↦
            rw (good, f, g)
              (transaction-Transacts net new_id d name patch l (codes "wl_" ++ hex_encode bytes)
                (digest (codes "wl_" ++ hex_encode bytes)))
      ]
    ]
  ]

pub checked_limits_lem :
    (parse : HostParser) (limits l : Limits)
    → checked_limits parse limits ≡ ok l
    → InRange l
      × (l.cpu_budget_ms ≡ limits.cpu_budget_ms)
      × (l.mem_cap_bytes ≡ limits.mem_cap_bytes)
      × Stored parse limits.allowed_hosts l.allowed_hosts
unfolding checked_limits
checked_limits_lem parse limits l e =
    elim (new_limits_cases limits.cpu_budget_ms limits.mem_cap_bytes) [
      | inl (range, made) ↦
          let stored =
            with_allowed_hosts-Stored parse
              (record {
                cpu_budget_ms = limits.cpu_budget_ms;
                mem_cap_bytes = limits.mem_cap_bytes;
                allowed_hosts = [];
              })
              limits.allowed_hosts l (rw made at e) in
          (ground arith, ground arith, ground arith, stored.3)
      | inr bad ↦ elim bad [
        | inl (out, failed) ↦ absurd (ground arith)
        | inr (low, high, out, failed) ↦ absurd (ground arith)
      ]
    ]

updated-checks : (l : Limits) (row : TenantRow) → InRange l → checks (updated l row) ≡ true
unfolding updated checks
updated-checks l row r = let (c0, c1, c2) = cols-InRange l r in rw (c1, c2) (ground arith)

limits_of-updated : (l : Limits) (row : TenantRow) → InRange l → limits_of (updated l row) ≡ l
unfolding updated
limits_of-updated l row r = let (c0, c1, c2) = cols-InRange l r in rw (c0, c1, c2) refl

update_tenant-ok :
    (d d' : Database) (name : Bytes) (l : Limits) (net : CommitAnswer)
    → InRange l
    → update_tenant net d name l ≡ (d', ok tt)
    → (row : TenantRow) × (lookup name d.tenants ≡ some row)
      × (d' ≡ record d { tenants = insert name (updated l row) d.tenants })
unfolding update_tenant commit
update_tenant-ok d d' name l committed r e = elim (Option-cases (lookup name d.tenants)) [
  | inl missing ↦ absurd (ground arith)
  | inr (row, held) ↦ (row, held, ground (arith, updated-checks l row r))
]
update_tenant-ok d d' name l refused r e = absurd (ground arith)
update_tenant-ok d d' name l lost_committed r e = absurd (ground arith)
update_tenant-ok d d' name l lost_refused r e = absurd (ground arith)

tenant_limits-lookup :
    (d d' : Database) (name : Bytes)
    → lookup name d'.tenants ≡ lookup name d.tenants
    → tenant_limits (ok tt) d' name ≡ tenant_limits (ok tt) d name
unfolding tenant_limits
tenant_limits-lookup d d' name h = rw (h, tenant_limits) refl

set_limits-ok :
    (parse : HostParser) (net : CommitAnswer) (d d' : Database) (name : Bytes) (limits : Limits)
    → set_limits parse net d name limits ≡ (d', ok tt)
    → (l : Limits) × (checked_limits parse limits ≡ ok l)
      × (update_tenant net d name l ≡ (d', ok tt))
unfolding set_limits
set_limits-ok parse net d d' name limits e = elim (Result-cases (checked_limits parse limits)) [
  | inr (x, f) ↦ absurd (ground arith)
  | inl (l, f) ↦ (l, f, rw (f, set_limits) at e)
]

-- After limits are set, the tenant existed and `tenant_limits` reads them back: the numbers as they
-- were given, through the narrower columns, and the hosts in normal form. Every tenant of another
-- name reads as before, and no key changes.
pub tenant_limits-set_limits :
    (parse : HostParser) (net : CommitAnswer) (d d' : Database) (name other : Bytes)
    (limits : Limits)
    → set_limits parse net d name limits ≡ (d', ok tt)
    → bytes_beq name other ≡ false
    → ((l : Limits) × (tenant_limits (ok tt) d' name ≡ ok (some l))
        × (l.cpu_budget_ms ≡ limits.cpu_budget_ms)
        × (l.mem_cap_bytes ≡ limits.mem_cap_bytes)
        × Stored parse limits.allowed_hosts l.allowed_hosts)
      × (lookup name d.tenants ≢ none)
      × (tenant_limits (ok tt) d' other ≡ tenant_limits (ok tt) d other)
      × (d'.api_keys ≡ d.api_keys)
tenant_limits-set_limits parse net d d' name other limits e ne =
    let (l, checked, done) = set_limits-ok parse net d d' name limits e in
    let (range, cpu, mem, hosts) = checked_limits_lem parse limits l checked in
    let (row, held, after) = update_tenant-ok d d' name l net range done in
    (
      (
        l,
        tenant_limits-some d' name (updated l row)
              (rw after (lookup-insert_self name (updated l row) d.tenants))
            ∙ rw (limits_of-updated l row range) refl,
        cpu,
        mem,
        hosts,
      ),
      ground arith,
      tenant_limits-lookup d d' other
          (rw after (lookup-insert name other (updated l row) d.tenants ∙ rw ne refl)),
      rw after refl,
    )
