-- ===== src/Pg/Admin/Patch.antt =====
-- What a call of `patch_tenant` of crates/core/src/pg/admin.rs does to the tables.
use warpline.Base.{
  ◌≡◌, refl, inl, inr, true, false, not, ◌&&◌, ◌++◌, none, arith, Bool-cases, any, Result, ok,
  Result-cases, Bytes, bytes_beq, bytes_eq, pair_eq, lookup, insert,
}
use warpline.Base.Text.{codes}
use warpline.Types.Names.{valid_name}
use warpline.Types.Limits.{HostParser, Limits}
use warpline.Pg.Schema.{
  Uuid, TenantRow, Database, checks, CommitAnswer, committed, refused, lost_committed, lost_refused,
  commit,
}
use warpline.Pg.Admin.{
  IssuedKey, LimitsPatch, checked_patch, upserted, upsert_tenant, insert_key, Network,
  patch_statements, patch_transaction, patch_tenant,
}

-- The tables after the two statements.
abbrev pub patched : TenantRow → Bytes → Bytes → Database → Database
patched row name key_hash d = record d {
  tenants = insert name row d.tenants;
  api_keys = insert key_hash row.id d.api_keys;
}

-- No other tenant's row has the id, the row is within the constraints, and the key is new.
pub record IsAccepted (row : TenantRow) (name key_hash : Bytes) (d : Database) : Type 0 where
  pub own_id : any (λ e. bytes_beq e.1.id row.id && not (bytes_beq e.0 name)) d.tenants ≡ false
  pub in_checks : checks row ≡ true
  pub new_key : lookup key_hash d.api_keys ≡ none

pub patch_statements-ok :
    (net : Network) (new_id : Uuid) (patch : LimitsPatch) (l : Limits) (name key_hash : Bytes)
    (d after : Database)
    → patch_statements net new_id patch l name key_hash d ≡ ok after
    → let row = upserted new_id patch l (lookup name d.tenants) in
      IsAccepted row name key_hash d × (after ≡ patched row name key_hash d)
unfolding patch_statements upsert_tenant insert_key
patch_statements-ok net new_id patch l name key_hash d after e =
    let row = upserted new_id patch l (lookup name d.tenants) in
    elim (Result-cases net.begin) [
      | inr (x, f) ↦ absurd (ground arith)
      | inl (t, f) ↦ elim (Result-cases net.first) [
        | inr (x, g) ↦ absurd (ground arith)
        | inl (t', g) ↦ elim (Result-cases net.second) [
          | inr (x, h) ↦ absurd (ground arith)
          | inl (t'', h) ↦ (
            record { own_id = ground arith; in_checks = ground arith; new_key = ground arith },
            ground arith,
          )
        ]
      ]
    ]

commit-ok :
    (answer : CommitAnswer) (before after d' : Database)
    → commit answer before after ≡ (d', ok tt)
    → (answer ≡ committed) × (d' ≡ after)
unfolding commit
commit-ok committed before after d' e = (refl, ground arith)
commit-ok refused before after d' e = absurd (ground arith)
commit-ok lost_committed before after d' e = absurd (ground arith)
commit-ok lost_refused before after d' e = absurd (ground arith)

module _ (parse : HostParser) (digest hex_encode : Bytes → Bytes) where
  -- Everything that a call which issues a key has passed, and what it leaves.
  pub record Issues (new_id : Uuid) (d d' : Database) (name : Bytes) (patch : LimitsPatch)
      (key : IssuedKey) (l : Limits) : Type 0 where
    pub valid : valid_name name ≡ true
    pub checked : checked_patch parse patch ≡ ok l
    pub for_tenant : key.tenant ≡ name
    pub accepted :
        IsAccepted (upserted new_id patch l (lookup name d.tenants)) name (digest key.api_key) d
    pub after :
        d' ≡ patched (upserted new_id patch l (lookup name d.tenants)) name (digest key.api_key) d

  transaction-ok :
      (net : Network) (new_id : Uuid) (patch : LimitsPatch) (l : Limits)
      (name api_key key_hash : Bytes) (d d' : Database) (key : IssuedKey)
      → patch_transaction net new_id patch l name api_key key_hash d ≡ (d', ok key)
      → let row = upserted new_id patch l (lookup name d.tenants) in
        IsAccepted row name key_hash d
        × (d' ≡ patched row name key_hash d)
        × (key ≡ record { tenant = name; api_key = api_key })
  unfolding patch_transaction
  transaction-ok net new_id patch l name api_key key_hash d d' key e =
      elim (Result-cases (patch_statements net new_id patch l name key_hash d)) [
        | inr (x, f) ↦ absurd (ground arith)
        | inl (after, f) ↦
            let (accepted, made) = patch_statements-ok net new_id patch l name key_hash d after f in
            elim (Result-cases (commit net.answer d after).1) [
              | inr (x, g) ↦ absurd (ground arith)
              | inl (t, g) ↦ (
                accepted,
                ground (arith, commit-ok net.answer d after (commit net.answer d after).0),
                ground arith,
              )
            ]
      ]

  pub patch_tenant-Issues :
      (net : Network) (new_id : Uuid) (random : Result Bytes Bytes) (d d' : Database) (name : Bytes)
      (patch : LimitsPatch) (key : IssuedKey)
      → patch_tenant parse digest hex_encode net new_id random d name patch ≡ (d', ok key)
      → (l : Limits) × Issues new_id d d' name patch key l
  unfolding patch_tenant
  patch_tenant-Issues net new_id random d d' name patch key e =
      elim (Bool-cases (valid_name name)) [
        | inr bad ↦ absurd (ground arith)
        | inl good ↦ elim (Result-cases (checked_patch parse patch)) [
          | inr (x, f) ↦ absurd (ground arith)
          | inl (l, f) ↦ elim (Result-cases random) [
            | inr (x, g) ↦ absurd (ground arith)
            | inl (bytes, g) ↦
                let api_key = codes "wl_" ++ hex_encode bytes in
                let (accepted, made, named) =
                  transaction-ok net new_id patch l name api_key (digest api_key) d d' key
                    (rw (good, f, g) at e) in
                let same : key.api_key ≡ api_key = rw named refl in
                (
                  l,
                  record {
                    valid = good;
                    checked = f;
                    for_tenant = rw named refl;
                    accepted = rw same accepted;
                    after = rw same made;
                  },
                )
          ]
        ]
      ]
