-- ===== src/Control/Publish/Publishes.antt =====
-- The pointer and the row of a function after `publish_in_db` of crates/control/src/lib.rs.
use warpline.Base.{
  ◌≡◌, refl, ◌∙◌, ◌⊎◌, inl, inr, true, some, arith, if◌then◌else◌, Bool-cases, Option-cases, ℤ,
  Result, ok, err, Result-cases, Bytes, bytes_eq, pair_beq, pair_eq, lookup, insert,
  lookup-insert_self,
}
use warpline.Types.Names.{valid_name}
use warpline.Registry.Disk.{Disk}
use warpline.Registry.Pointer.{Io}
use warpline.Runtime.Publish.{activate, active}
use warpline.Runtime.Publish.Laws.{active-activate}
use warpline.Pg.Schema.{
  Database, CommitAnswer, committed, refused, lost_committed, lost_refused, commit,
}
use warpline.Front.{Reply}
use warpline.Control.Publish.{
  internal_error, PublishNetwork, publish_statements, select_hash, settle, ReconcileError,
  try_reconcile, reconcile_pointer, finish_publish, publish_in_db,
}
use warpline.Control.Publish.Agree.{
  activate_failed, active-settle, try_reconcile_ok, try_reconcile_failed,
}

publish_statements-select_hash :
    (net : PublishNetwork) (max_functions : ℤ) (d after : Database) (tenant func digest : Bytes)
    → publish_statements net max_functions d tenant func digest ≡ ok after
    → select_hash after tenant func ≡ some digest
unfolding publish_statements select_hash
publish_statements-select_hash net max_functions d after tenant func digest e =
    elim (Option-cases (lookup tenant d.tenants)) [
      | inl missing ↦ absurd (ground arith)
      | inr (row, held) ↦
          let made : after ≡ record d { functions = insert (row.id, func) digest d.functions } =
            ground arith in
          rw made (rw (held, select_hash) (lookup-insert_self (row.id, func) digest d.functions))
    ]

module _ (net' : PublishNetwork) (sys' : Io) (tenant func digest : Bytes) (t f : Bytes) where
  -- Row and pointer are those of the digest, and other pointers are as before.
  abbrev pub IsPublished : Disk → Database × Disk × Result Reply (Unit {0}) → Type 0
  IsPublished disk r =
      (r.2 ≡ ok tt)
      × (select_hash r.0 tenant func ≡ some digest)
      × (active r.1 t f
          ≡ (if pair_beq (tenant, func) (t, f) then ok (some digest) else active disk t f))

  -- The pointer follows the row, and other pointers are as before.
  abbrev pub Follows : Disk → Database × Disk × Result Reply (Unit {0}) → Type 0
  Follows disk r = active r.1 t f ≡ (
      if pair_beq (tenant, func) (t, f) then ok (select_hash r.0 tenant func) else active disk t f)

  -- The pointer names the digest, and other pointers are as before.
  abbrev pub Switched : Disk → Disk → Type 0
  Switched disk disk' =
      active disk' t f
      ≡ (if pair_beq (tenant, func) (t, f) then ok (some digest) else active disk t f)

  -- The commit failed after the pointer was switched, which made the disk `switched`: the pointer
  -- follows the row again, or the reconciliation of that disk failed too and the pointer still names
  -- the digest.
  abbrev pub IsUndone : Disk → Disk → Database × Disk × Result Reply (Unit {0}) → Type 0
  IsUndone disk switched r =
      (r.2 ≡ err internal_error)
      × (Follows disk r
          ⊎ ((e : ReconcileError) × ((try_reconcile net' sys' r.0 switched tenant func).1 ≡ err e)
              × Switched disk r.1))

  abbrev pub Publishes : Database → Disk → Disk → Database × Disk × Result Reply (Unit {0}) → Type 0
  Publishes d disk switched r =
      IsPublished disk r
      ⊎ ((e : Reply) × (r.2 ≡ err e) × (r.0 ≡ d) × (r.1 ≡ disk))
      ⊎ IsUndone disk switched r

  follows :
      (d : Database) (disk switched : Disk)
      → Switched disk switched
      → (settle sys' switched tenant func (select_hash d tenant func)).1 ≡ ok tt
      → valid_name t ≡ true
      → valid_name f ≡ true
      → active (settle sys' switched tenant func (select_hash d tenant func)).0 t f ≡ (
          if pair_beq (tenant, func) (t, f)
          then ok (select_hash d tenant func)
          else active disk t f)
  follows d disk switched a p vt vf =
      active-settle sys' switched tenant func (select_hash d tenant func) t f p vt vf ∙ others
    where
      others :
          (if pair_beq (tenant, func) (t, f)
            then ok (select_hash d tenant func)
            else active switched t f)
          ≡ (if pair_beq (tenant, func) (t, f)
              then ok (select_hash d tenant func)
              else active disk t f)
      others = elim (Bool-cases (pair_beq (tenant, func) (t, f))) [
        | inl same ↦ rw same refl
        | inr other ↦ rw other (a ∙ rw other refl)
      ]

  undone :
      (d : Database) (disk switched : Disk)
      → Switched disk switched
      → valid_name t ≡ true
      → valid_name f ≡ true
      → IsUndone disk switched
          (d, reconcile_pointer net' sys' d switched tenant func, err internal_error)
  unfolding reconcile_pointer
  undone d disk switched a vt vf =
      elim (Result-cases (try_reconcile net' sys' d switched tenant func).1) [
        | inl (u, p) ↦
            let (v, s) = try_reconcile_ok net' sys' d switched tenant func p in
            (refl, inl (rw s (follows d disk switched a v vt vf)))
        | inr (e, p) ↦ elim (try_reconcile_failed net' sys' d switched tenant func e p) [
          | inl same ↦ (refl, inr (e, p, rw same a))
          | inr (v, s) ↦ (refl, inl (rw s (follows d disk switched a v vt vf)))
        ]
      ]

  commit-Publishes :
      (answer : CommitAnswer) (d after : Database) (disk switched : Disk)
      → select_hash after tenant func ≡ some digest
      → Switched disk switched
      → valid_name t ≡ true
      → valid_name f ≡ true
      → Publishes d disk switched
          (finish_publish net' sys' tenant func switched (commit answer d after))
  unfolding commit finish_publish
  commit-Publishes committed d after disk switched s a vt vf = inl (refl, s, a)
  commit-Publishes refused d after disk switched s a vt vf =
      inr (inr (undone d disk switched a vt vf))
  commit-Publishes lost_committed d after disk switched s a vt vf =
      inr (inr (undone after disk switched a vt vf))
  commit-Publishes lost_refused d after disk switched s a vt vf =
      inr (inr (undone d disk switched a vt vf))

  -- A publication that succeeds leaves the digest in the function's row and in its pointer. One that
  -- fails before the pointer is switched leaves tables and files as they were. If the commit fails
  -- after that, the pointer again follows what the row says, whether or not the server committed; or
  -- the reconciliation, from the disk that the switch left, fails as well, and the pointer still
  -- names the digest. In every case no other pointer of valid names changes.
  pub publish_in_db-Publishes :
      (net : PublishNetwork) (sys : Io) (max_functions : ℤ) (d : Database) (disk : Disk)
      → valid_name t ≡ true
      → valid_name f ≡ true
      → Publishes d disk
          (activate sys disk tenant func digest).0
          (publish_in_db net sys net' sys' max_functions d disk tenant func digest)
  unfolding publish_in_db
  publish_in_db-Publishes net sys max_functions d disk vt vf =
      elim (Result-cases (publish_statements net max_functions d tenant func digest)) [
        | inr (r, p) ↦ rw (p, publish_in_db) (inr (inl (r, refl, refl, refl)))
        | inl (after, p) ↦ elim (Result-cases (activate sys disk tenant func digest).1) [
          | inr (e, q) ↦
              rw (p, publish_in_db)
                (rw q (inr (inl (_, refl, refl, activate_failed sys disk tenant func digest e q))))
          | inl (u, q) ↦
              rw (p, publish_in_db)
                (rw q (
                  commit-Publishes net.answer d after disk (activate sys disk tenant func digest).0
                    (publish_statements-select_hash net max_functions d after tenant func digest p)
                    (active-activate sys disk tenant func digest t f q vt vf) vt vf))
        ]
      ]
