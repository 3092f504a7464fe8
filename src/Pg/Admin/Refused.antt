-- ===== src/Pg/Admin/Refused.antt =====
-- What the constraints of the tables refuse of the statements of crates/core/src/pg/admin.rs.
use warpline.Base.{
  ◌≡◌, refl, ◌≢◌, ◌⊎◌, inl, inr, true, not, ◌&&◌, Option, none, some, arith, Bool-cases,
  Option-cases, any, err, map_err, Result-cases, Bytes, bytes_beq, bytes_eq, pair_eq, lookup,
}
use warpline.Types.Limits.{HostParser, Limits, InRange}
use warpline.Pg.Schema.{
  constraint, Uuid, TenantRow, Database, CommitAnswer, committed, refused, lost_committed,
  lost_refused, commit,
}
use warpline.Pg.Admin.{
  sql, LimitsPatch, is_some, upserted, upsert_tenant, insert_key, Network, patch_statements,
  patch_transaction, updated, update_tenant, checked_limits, set_limits,
}
use warpline.Pg.Admin.Stored.{checked_limits_lem}
use warpline.Pg.Admin.Columns.{InColumns, InColumns-checks, upserted-InColumns, updated-InColumns}
use warpline.Pg.Admin.Sound.{IsSound, insert-IsSound, commit-IsSound, committed_key_lem}

-- What the network itself answers to a step is a failure of the connection.
pub record OnlyConnection (net : Network) : Type 0 where
  pub begin : net.begin ≢ err constraint
  pub first : net.first ≢ err constraint
  pub second : net.second ≢ err constraint

-- The id of the row that a patch writes.
abbrev pub row_id : Uuid → Option TenantRow → Uuid
row_id new_id none = new_id
row_id new_id (some t) = t.id

-- Another tenant has the id of the row, or the hash of the new key is in the table.
abbrev pub Taken : Uuid → Bytes → Bytes → Database → Type 0
Taken new_id name key_hash d =
    (any (λ e. bytes_beq e.1.id (row_id new_id (lookup name d.tenants)) && not (bytes_beq e.0 name))
        d.tenants
      ≡ true)
    ⊎ (is_some (lookup key_hash d.api_keys) ≡ true)

upserted-row_id :
    (new_id : Uuid) (patch : LimitsPatch) (l : Limits) (old : Option TenantRow)
    → (upserted new_id patch l old).id ≡ row_id new_id old
unfolding upserted
upserted-row_id new_id patch l none = refl
upserted-row_id new_id patch l (some t) = refl

patch_statements-constraint :
    (net : Network) (new_id : Uuid) (patch : LimitsPatch) (l : Limits) (name key_hash : Bytes)
    (d : Database)
    → OnlyConnection net
    → InColumns (upserted new_id patch l (lookup name d.tenants))
    → patch_statements net new_id patch l name key_hash d ≡ err constraint
    → Taken new_id name key_hash d
unfolding patch_statements upsert_tenant insert_key
patch_statements-constraint net new_id patch l name key_hash d only c e =
    let row = upserted new_id patch l (lookup name d.tenants) in
    let good = InColumns-checks row c in
    let same = upserted-row_id new_id patch l (lookup name d.tenants) in
    elim (Bool-cases (is_some (lookup key_hash d.api_keys))) [
      | inl held ↦ inr held
      | inr fresh ↦
          elim (Bool-cases
            (any (λ x. bytes_beq x.1.id row.id && not (bytes_beq x.0 name)) d.tenants)) [
              | inl clash ↦ inl (rw same at clash)
              | inr own ↦ absurd (ground arith)
            ]
    ]

pub transaction-Taken :
    (net : Network) (new_id : Uuid) (patch : LimitsPatch) (l : Limits)
    (name api_key key_hash : Bytes) (d : Database)
    → OnlyConnection net
    → InRange l
    → IsSound d
    → (patch_transaction net new_id patch l name api_key key_hash d).1 ≡ err (sql constraint)
    → Taken new_id name key_hash d
unfolding patch_transaction
transaction-Taken net new_id patch l name api_key key_hash d only r s e =
    elim (Result-cases (patch_statements net new_id patch l name key_hash d)) [
      | inl (after, f) ↦
          absurd
            ((committed_key_lem name api_key net.answer d after).1 (rw (f, patch_transaction) at e))
      | inr (x, f) ↦
          let why : x ≡ constraint = ground arith in
          patch_statements-constraint net new_id patch l name key_hash d only
            (upserted-InColumns new_id patch l name d r s.rows) (rw why at f)
    ]

missing-passes :
    (net : CommitAnswer) (d : Database) (name : Bytes) (l : Limits)
    → lookup name d.tenants ≡ none
    → (update_tenant net d name l).1 ≢ err (sql constraint)
unfolding update_tenant commit
missing-passes committed d name l h = rw (h, update_tenant) (ground arith)
missing-passes refused d name l h = rw (h, update_tenant) (ground arith)
missing-passes lost_committed d name l h = rw (h, update_tenant) (ground arith)
missing-passes lost_refused d name l h = rw (h, update_tenant) (ground arith)

answer-passes :
    (net : CommitAnswer) (d after : Database)
    → map_err sql (commit net d after).1 ≢ err (sql constraint)
unfolding commit
answer-passes committed d after = ground arith
answer-passes refused d after = ground arith
answer-passes lost_committed d after = ground arith
answer-passes lost_refused d after = ground arith

update_tenant_lem :
    (net : CommitAnswer) (d : Database) (name : Bytes) (l : Limits)
    → InRange l
    → IsSound d
    → IsSound (update_tenant net d name l).0
      × ((update_tenant net d name l).1 ≢ err (sql constraint))
unfolding update_tenant
update_tenant_lem net d name l r s = elim (Option-cases (lookup name d.tenants)) [
  | inl missing ↦ (rw (missing, update_tenant) s, missing-passes net d name l missing)
  | inr (row, held) ↦
      let c = updated-InColumns l row r in
      let good = InColumns-checks (updated l row) c in
      rw (held, update_tenant)
        (rw good (
          commit-IsSound net d _ s
              (insert-IsSound d name (updated l row) s (λ t e. unfold updated in ground arith) c),
          answer-passes net d _,
        ))
]

pub set_limits_lem :
    (parse : HostParser) (net : CommitAnswer) (d : Database) (name : Bytes) (limits : Limits)
    → IsSound d
    → IsSound (set_limits parse net d name limits).0
      × ((set_limits parse net d name limits).1 ≢ err (sql constraint))
unfolding set_limits
set_limits_lem parse net d name limits s = elim (Result-cases (checked_limits parse limits)) [
  | inr (x, f) ↦ rw (f, set_limits) (s, ground arith)
  | inl (l, f) ↦
      rw (f, set_limits) (update_tenant_lem net d name l (checked_limits_lem parse limits l f).0 s)
]
