-- ===== src/Pg/Admin/Passes.antt =====
-- An administrator's calls of crates/core/src/pg/admin.rs and the constraints of the tables.
use warpline.Base.{
  ◌≡◌, refl, ◌≢◌, ◌⊎◌, inl, inr, List, [], ◌∷◌, ◌++◌, arith, Bool-cases, All, Result, ok, err,
  Result-cases, Bytes, bytes_eq, pair_eq,
}
use warpline.Base.Text.{codes}
use warpline.Types.Names.{valid_name}
use warpline.Types.Limits.{HostParser, Limits}
use warpline.Pg.Schema.{constraint, unavailable, Uuid, Database, CommitAnswer}
use warpline.Pg.Admin.{
  invalid_name, config, no_such_tenant, rng, sql, IssuedKey, AdminError, LimitsPatch, checked_patch,
  Network, patch_tenant, set_limits,
}
use warpline.Pg.Admin.Rows.{checked_patch_lem}
use warpline.Pg.Admin.Sound.{IsSound, transaction-IsSound}
use warpline.Pg.Admin.Refused.{OnlyConnection, Taken, transaction-Taken, set_limits_lem}

-- The writes of an administrator, with what the network and the source of randomness do to each.
pub data AdminCall : Type 0 where
  patch_call : Network → Uuid → Result Bytes Bytes → Bytes → LimitsPatch → AdminCall
  set_call : CommitAnswer → Bytes → Limits → AdminCall

-- The network answers no step of the call as a constraint of the tables would.
abbrev pub OnlyTables : AdminCall → Type 0
OnlyTables (patch_call net new_id random name patch) = OnlyConnection net
OnlyTables (set_call net name limits) = Unit

module _ (parse : HostParser) (digest hex_encode : Bytes → Bytes) where
  -- The id of the row is another tenant's, or the hash of the key drawn is in the table.
  abbrev pub Clashes : Uuid → Result Bytes Bytes → Bytes → Database → Type 0
  Clashes new_id random name d =
      (drawn : Bytes) × (random ≡ ok drawn)
      × Taken new_id name (digest (codes "wl_" ++ hex_encode drawn)) d

  patch_tenant-IsSound :
      (net : Network) (new_id : Uuid) (random : Result Bytes Bytes) (d : Database) (name : Bytes)
      (patch : LimitsPatch)
      → IsSound d
      → IsSound (patch_tenant parse digest hex_encode net new_id random d name patch).0
  unfolding patch_tenant
  patch_tenant-IsSound net new_id random d name patch s = elim (Bool-cases (valid_name name)) [
    | inr bad ↦ rw bad s
    | inl good ↦ elim (Result-cases (checked_patch parse patch)) [
      | inr (x, f) ↦ rw (good, f) s
      | inl (l, f) ↦ elim (Result-cases random) [
        | inr (x, g) ↦ rw (good, f, g) s
        | inl (drawn, g) ↦
            rw (good, f, g)
              (transaction-IsSound net new_id patch l name (codes "wl_" ++ hex_encode drawn)
                (digest (codes "wl_" ++ hex_encode drawn)) d (checked_patch_lem parse patch l f).0
                s)
      ]
    ]
  ]

  patch_tenant-Clashes :
      (net : Network) (new_id : Uuid) (random : Result Bytes Bytes) (d : Database) (name : Bytes)
      (patch : LimitsPatch)
      → OnlyConnection net
      → IsSound d
      → (patch_tenant parse digest hex_encode net new_id random d name patch).1
        ≡ err (sql constraint)
      → Clashes new_id random name d
  unfolding patch_tenant
  patch_tenant-Clashes net new_id random d name patch only s e =
      elim (Bool-cases (valid_name name)) [
        | inr bad ↦ absurd (ground arith)
        | inl good ↦ elim (Result-cases (checked_patch parse patch)) [
          | inr (x, f) ↦ absurd (ground arith)
          | inl (l, f) ↦ elim (Result-cases random) [
            | inr (x, g) ↦ absurd (ground arith)
            | inl (drawn, g) ↦ (
              drawn,
              g,
              transaction-Taken net new_id patch l name (codes "wl_" ++ hex_encode drawn)
                  (digest (codes "wl_" ++ hex_encode drawn)) d only
                  (checked_patch_lem parse patch l f).0 s (rw (good, f, g) at e),
            )
          ]
        ]
      ]

  -- No constraint of the tables refuses the call, or the row's id or the key's hash clashes.
  abbrev pub Passes : AdminCall → Database → Type 0
  Passes (patch_call net new_id random name patch) d =
      ((patch_tenant parse digest hex_encode net new_id random d name patch).1
        ≢ err (sql constraint))
      ⊎ Clashes new_id random name d
  Passes (set_call net name limits) d =
      (set_limits parse net d name limits).1 ≢ err (sql constraint)

  abbrev pub administer : AdminCall → Database → Database
  administer (patch_call net new_id random name patch) d =
      (patch_tenant parse digest hex_encode net new_id random d name patch).0
  administer (set_call net name limits) d = (set_limits parse net d name limits).0

  -- Every call of a run passes, and the tables after it are sound.
  abbrev pub AllPass : List AdminCall → Database → Type 0
  AllPass [] d = IsSound d
  AllPass (c ∷ calls) d = Passes c d × AllPass calls (administer c d)

  one-Passes :
      (c : AdminCall) (d : Database)
      → OnlyTables c
      → IsSound d
      → Passes c d × IsSound (administer c d)
  one-Passes (patch_call net new_id random name patch) d only s = (
    passes (patch_tenant parse digest hex_encode net new_id random d name patch).1 refl,
    patch_tenant-IsSound net new_id random d name patch s,
  )
    where
      passes :
          (r : Result AdminError IssuedKey)
          → (patch_tenant parse digest hex_encode net new_id random d name patch).1 ≡ r
          → Passes (patch_call net new_id random name patch) d
      passes (err (sql constraint)) e =
          inr (patch_tenant-Clashes net new_id random d name patch only s e)
      passes (err (sql unavailable)) e = inl (ground arith)
      passes (err invalid_name) e = inl (ground arith)
      passes (err (config x)) e = inl (ground arith)
      passes (err (no_such_tenant x)) e = inl (ground arith)
      passes (err (rng x)) e = inl (ground arith)
      passes (ok key) e = inl (ground arith)
  one-Passes (set_call net name limits) d only s =
      let (sound, passes) = set_limits_lem parse net d name limits s in (passes, sound)

  -- What the validation of an administrator's calls lets through fits the tables. From tables whose
  -- limits are in range and whose keys all belong to tenants, whatever an administrator calls,
  -- failing calls and lost answers included: no call is refused by a constraint of the tables,
  -- except for an id that another tenant has or the hash of a key that is in the table; and at the
  -- end every tenant's CPU budget is 1 to 10000 ms, its memory cap 1 to 512 MiB, and every key
  -- belongs to a tenant. The failures that the network adds are failures of the connection.
  pub administer-AllPass :
      (calls : List AdminCall) (d : Database) → All OnlyTables calls → IsSound d → AllPass calls d
  administer-AllPass [] d only s = s
  administer-AllPass (c ∷ calls) d only s =
      let (passes, sound) = one-Passes c d only.0 s in
      (passes, administer-AllPass calls (administer c d) only.1 sound)
