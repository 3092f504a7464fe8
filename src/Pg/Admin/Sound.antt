-- ===== src/Pg/Admin/Sound.antt =====
-- The tables under the transaction of `patch_tenant` of crates/core/src/pg/admin.rs.
use warpline.Base.{
  ◌≡◌, refl, ◌≢◌, inl, inr, true, List, [], ◌∷◌, Option, none, some, arith, Bool-cases, All, err,
  Result-cases, Bytes, bytes_beq, bytes_eq, pair_eq, lookup, insert,
}
use warpline.Types.Limits.{Limits, InRange}
use warpline.Pg.Schema.{
  constraint, Uuid, TenantRow, Database, tenant_by_id, CommitAnswer, committed, refused,
  lost_committed, lost_refused, commit,
}
use warpline.Pg.Admin.{
  sql, LimitsPatch, is_some, upserted, Network, patch_statements, committed_key, patch_transaction,
}
use warpline.Pg.Admin.Rows.{tenant_by_id-keeps, tenant_by_id-insert, insert-All}
use warpline.Pg.Admin.Patch.{patched, IsAccepted, patch_statements-ok}
use warpline.Pg.Admin.Columns.{InColumns, upserted-InColumns}

-- Every row has limits in range, and every key belongs to a row.
pub record IsSound (d : Database) : Type 0 where
  pub rows : All (λ e. InColumns e.1) d.tenants
  pub keys : All (λ k. is_some (tenant_by_id k.1 d.tenants) ≡ true) d.api_keys

All-map : {A : Type 0} (P Q : A → Type 0) (l : List A) → ((a : A) → P a → Q a) → All P l → All Q l
All-map P Q [] f h = tt
All-map P Q (a ∷ l) f h = (f a h.0, All-map P Q l f h.1)

insert_key-All :
    (P : Bytes × Uuid → Type 0) (key id : Bytes) (l : List (Bytes × Uuid))
    → All P l
    → P (key, id)
    → All P (insert key id l)
unfolding insert
insert_key-All P key id [] h p = (p, tt)
insert_key-All P key id ((j, i) ∷ l) h p = elim (Bool-cases (bytes_beq j key)) [
  | inl same ↦ rw same (p, h.1)
  | inr other ↦ rw other (h.0, insert_key-All P key id l h.1 p)
]

-- A row that keeps the id of the one it replaces, within the constraints.
pub insert-IsSound :
    (d : Database) (name : Bytes) (row : TenantRow)
    → IsSound d
    → ((t : TenantRow) → lookup name d.tenants ≡ some t → row.id ≡ t.id)
    → InColumns row
    → IsSound (record d { tenants = insert name row d.tenants })
insert-IsSound d name row s same ok_row = record {
  rows = insert-All (λ e. InColumns e.1) name row d.tenants s.rows ok_row;
  keys =
      All-map (λ k. is_some (tenant_by_id k.1 d.tenants) ≡ true)
        (λ k. is_some (tenant_by_id k.1 (insert name row d.tenants)) ≡ true) d.api_keys
        (λ k h. tenant_by_id-keeps k.1 name row d.tenants same h) s.keys;
}

upserted-id :
    (new_id : Uuid) (patch : LimitsPatch) (l : Limits) (old : Option TenantRow) (t : TenantRow)
    → old ≡ some t
    → (upserted new_id patch l old).id ≡ t.id
unfolding upserted
upserted-id new_id patch l none t e = absurd (ground arith)
upserted-id new_id patch l (some u) t e = ground arith

patched-IsSound :
    (new_id : Uuid) (patch : LimitsPatch) (l : Limits) (d : Database) (name key_hash : Bytes)
    → InRange l
    → IsSound d
    → IsAccepted (upserted new_id patch l (lookup name d.tenants)) name key_hash d
    → IsSound (patched (upserted new_id patch l (lookup name d.tenants)) name key_hash d)
patched-IsSound new_id patch l d name key_hash r s a =
    let row = upserted new_id patch l (lookup name d.tenants) in
    let t =
      insert-IsSound d name row s (λ u e. upserted-id new_id patch l (lookup name d.tenants) u e)
        (upserted-InColumns new_id patch l name d r s.rows) in
    record {
      rows = t.rows;
      keys =
          insert_key-All (λ k. is_some (tenant_by_id k.1 (insert name row d.tenants)) ≡ true)
            key_hash row.id d.api_keys t.keys
            (rw (tenant_by_id-insert name row d.tenants a.own_id) refl);
    }

pub commit-IsSound :
    (net : CommitAnswer) (before after : Database)
    → IsSound before
    → IsSound after
    → IsSound (commit net before after).0
unfolding commit
commit-IsSound committed before after b a = a
commit-IsSound refused before after b a = b
commit-IsSound lost_committed before after b a = a
commit-IsSound lost_refused before after b a = b

-- The end of the transaction fails, if it does, for the connection.
pub committed_key_lem :
    (name api_key : Bytes) (answer : CommitAnswer) (before after : Database)
    → ((committed_key name api_key (commit answer before after)).0 ≡ (commit answer before after).0)
      × ((committed_key name api_key (commit answer before after)).1 ≢ err (sql constraint))
unfolding commit
committed_key_lem name api_key committed before after = (refl, ground arith)
committed_key_lem name api_key refused before after = (refl, ground arith)
committed_key_lem name api_key lost_committed before after = (refl, ground arith)
committed_key_lem name api_key lost_refused before after = (refl, ground arith)

pub transaction-IsSound :
    (net : Network) (new_id : Uuid) (patch : LimitsPatch) (l : Limits)
    (name api_key key_hash : Bytes) (d : Database)
    → InRange l
    → IsSound d
    → IsSound (patch_transaction net new_id patch l name api_key key_hash d).0
unfolding patch_transaction
transaction-IsSound net new_id patch l name api_key key_hash d r s =
    elim (Result-cases (patch_statements net new_id patch l name key_hash d)) [
      | inr (x, f) ↦ rw (f, patch_transaction) s
      | inl (after, f) ↦
          let (a, made) = patch_statements-ok net new_id patch l name key_hash d after f in
          let (same, answer) = committed_key_lem name api_key net.answer d after in
          rw (f, patch_transaction)
            (rw same (
              commit-IsSound net.answer d after s
                (rw made (patched-IsSound new_id patch l d name key_hash r s a))))
    ]
