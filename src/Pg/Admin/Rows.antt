-- ===== src/Pg/Admin/Rows.antt =====
-- Rows of `warpline.tenants` and the rows that statements of crates/core/src/pg/admin.rs put in their
-- place.
use warpline.Base.{
  ◌≡◌, refl, inl, inr, true, false, not, ◌&&◌, List, [], ◌∷◌, some, arith, Bool-cases, any, All,
  pos, ok, Bytes, bytes_beq, bytes_beq_iff, bytes_eq, pair_eq, lookup, insert,
}
use warpline.Types.Limits.{
  HostParser, Limits, new_limits_cases, with_allowed_hosts-Stored, Stored, InRange,
}
use warpline.Pg.Schema.{TenantRow, tenant_by_id}
use warpline.Pg.Admin.{LimitsPatch, checked_patch, unwrap_or, is_some, cols}

-- An insertion is found by its id, if no row under another name has that id.
pub tenant_by_id-insert :
    (name : Bytes) (row : TenantRow) (l : List (Bytes × TenantRow))
    → any (λ e. bytes_beq e.1.id row.id && not (bytes_beq e.0 name)) l ≡ false
    → tenant_by_id row.id (insert name row l) ≡ some (name, row)
unfolding tenant_by_id insert
tenant_by_id-insert name row [] h = ground (arith, bytes_beq_iff row.id row.id)
tenant_by_id-insert name row ((j, t) ∷ l) h = elim (Bool-cases (bytes_beq j name)) [
  | inl same ↦ rw same (ground (arith, bytes_beq_iff row.id row.id))
  | inr other ↦ rw other (ground (arith, tenant_by_id-insert name row l))
]

-- A row that keeps the id of the one that it replaces takes no id away.
pub tenant_by_id-keeps :
    (id name : Bytes) (row : TenantRow) (l : List (Bytes × TenantRow))
    → ((t : TenantRow) → lookup name l ≡ some t → row.id ≡ t.id)
    → is_some (tenant_by_id id l) ≡ true
    → is_some (tenant_by_id id (insert name row l)) ≡ true
unfolding tenant_by_id insert lookup
tenant_by_id-keeps id name row [] same h = absurd (ground arith)
tenant_by_id-keeps id name row ((j, t) ∷ l) same h = elim (Bool-cases (bytes_beq j name)) [
  | inl here ↦
      let eq : row.id ≡ t.id = same t (rw here refl) in
      rw here (
        rw eq
          (elim (Bool-cases (bytes_beq t.id id)) [ inl y ↦ rw y refl | inr n ↦ rw n (rw n at h) ]))
  | inr other ↦ rw other (elim (Bool-cases (bytes_beq t.id id)) [
    | inl y ↦ rw y refl
    | inr n ↦ rw n (tenant_by_id-keeps id name row l (λ u e. same u (rw other e)) (rw n at h))
  ])
]

pub insert-All {ℓ} :
    (P : Bytes × TenantRow → Type ℓ) (name : Bytes) (row : TenantRow) (l : List (Bytes × TenantRow))
    → All P l
    → P (name, row)
    → All P (insert name row l)
unfolding insert
insert-All P name row [] h p = (p, tt)
insert-All P name row ((j, t) ∷ l) h p = elim (Bool-cases (bytes_beq j name)) [
  | inl same ↦ rw same (p, h.1)
  | inr other ↦ rw other (h.0, insert-All P name row l h.1 p)
]

-- Limits in range go through the columns and back unchanged.
pub cols-InRange :
    (l : Limits)
    → InRange l
    → ((cols l).0 ≡ l.allowed_hosts)
      × ((cols l).1 ≡ pos l.cpu_budget_ms)
      × ((cols l).2 ≡ pos l.mem_cap_bytes)
unfolding cols
cols-InRange l r = (refl, ground arith, ground arith)

-- What the checks of a patch let through: the values of the patch over the defaults, in range, with
-- the hosts in their normal form.
pub checked_patch_lem :
    (parse : HostParser) (patch : LimitsPatch) (l : Limits)
    → checked_patch parse patch ≡ ok l
    → InRange l
      × (l.cpu_budget_ms ≡ unwrap_or patch.cpu_budget_ms 100)
      × (l.mem_cap_bytes ≡ unwrap_or patch.mem_cap_bytes 67108864)
      × Stored parse (unwrap_or patch.allowed_hosts []) l.allowed_hosts
unfolding checked_patch
checked_patch_lem parse patch l e =
    let cpu = unwrap_or patch.cpu_budget_ms 100 in
    let mem = unwrap_or patch.mem_cap_bytes 67108864 in
    elim (new_limits_cases cpu mem) [
      | inl (range, made) ↦
          let stored =
            with_allowed_hosts-Stored parse
              (record { cpu_budget_ms = cpu; mem_cap_bytes = mem; allowed_hosts = [] })
              (unwrap_or patch.allowed_hosts []) l (rw made at e) in
          (ground arith, ground arith, ground arith, stored.3)
      | inr bad ↦ elim bad [
        | inl (out, failed) ↦ absurd (ground arith)
        | inr (low, high, out, failed) ↦ absurd (ground arith)
      ]
    ]
