-- ===== src/Control/Publish/Quota.antt =====
-- The quota of functions that `publish_in_db` of crates/control/src/lib.rs enforces.
use mathlib.Core.Path.{subst}
use warpline.Base.{
  ℕ, ◌+◌, ◌≤◌, ◌<◌, ◌≡◌, refl, inl, inr, false, List, [], ◌∷◌, none, arith, if◌then◌else◌,
  Bool-cases, Option-cases, pos, ok, Result-cases, Bytes, bytes_beq, bytes_beq_iff, bytes_eq,
  pair_eq, lookup, insert,
}
use warpline.Base.Keyed.{Keyed, insert-Keyed}
use warpline.Registry.Disk.{Disk}
use warpline.Registry.Pointer.{Io}
use warpline.Runtime.Publish.{activate}
use warpline.Pg.Schema.{
  Uuid, Database, CommitAnswer, committed, refused, lost_committed, lost_refused, commit,
}
use warpline.Control.Publish.{
  count_others, at_quota, PublishNetwork, publish_statements, finish_publish, publish_in_db,
}

-- The functions of a tenant.
unfoldable pub functions_of : Uuid → List ((Uuid × Bytes) × Bytes) → ℕ
functions_of id [] = 0
functions_of id (((i, name), hash) ∷ l) = (if bytes_beq i id then 1 else 0) + functions_of id l

functions_of-absent :
    (id func : Bytes) (l : List ((Uuid × Bytes) × Bytes))
    → lookup (id, func) l ≡ none
    → functions_of id l ≡ count_others id func l
unfolding functions_of count_others lookup
functions_of-absent id func [] h = refl
functions_of-absent id func (((i, name), hash) ∷ l) h =
    ground (arith, functions_of-absent id func l)

functions_of-le :
    (id func : Bytes) (l : List ((Uuid × Bytes) × Bytes))
    → Keyed l
    → functions_of id l ≤ count_others id func l + 1
unfolding functions_of count_others
functions_of-le id func [] k = omega arith
functions_of-le id func (((i, name), hash) ∷ l) k = elim (Bool-cases (bytes_beq i id)) [
  | inr other ↦ ground (arith, functions_of-le id func l k.1)
  | inl same ↦ elim (Bool-cases (bytes_beq name func)) [
    | inr apart ↦ ground (arith, functions_of-le id func l k.1)
    | inl here ↦
        let key : ◌≡◌ {A = Uuid × Bytes} (i, name) (id, func) =
          ground (arith, bytes_beq_iff i id, bytes_beq_iff name func) in
        let gone : lookup (id, func) l ≡ none = rw key at (k.0) in
        ground (arith, functions_of-absent id func l gone)
  ]
]

count_others-insert :
    (id func hash : Bytes) (l : List ((Uuid × Bytes) × Bytes))
    → count_others id func (insert (id, func) hash l) ≡ count_others id func l
unfolding count_others insert
count_others-insert id func hash [] = ground (arith, bytes_beq_iff func func)
count_others-insert id func hash (((i, name), old) ∷ l) =
    ground (arith, count_others-insert id func hash l, bytes_beq_iff func func)

functions_of-insert_other :
    (j id func hash : Bytes) (l : List ((Uuid × Bytes) × Bytes))
    → bytes_beq id j ≡ false
    → functions_of j (insert (id, func) hash l) ≡ functions_of j l
unfolding functions_of insert
functions_of-insert_other j id func hash [] h = ground arith
functions_of-insert_other j id func hash (((i, name), old) ∷ l) h =
    ground (arith, functions_of-insert_other j id func hash l h, bytes_beq_iff i id)

-- The tables within the quota, each function once.
pub record IsWithin (max_functions : ℕ) (id : Uuid) (d : Database) : Type 0 where
  pub keyed : Keyed d.functions
  pub few : functions_of id d.functions ≤ max_functions

publish_statements-IsWithin :
    (net : PublishNetwork) (max_functions : ℕ) (id : Uuid) (d after : Database)
    (tenant func digest : Bytes)
    → IsWithin max_functions id d
    → publish_statements net (pos max_functions) d tenant func digest ≡ ok after
    → IsWithin max_functions id after
unfolding publish_statements at_quota
publish_statements-IsWithin net max_functions id d after tenant func digest w e =
    elim (Option-cases (lookup tenant d.tenants)) [
      | inl missing ↦ absurd (ground arith)
      | inr (row, held) ↦
          let made : after ≡ record d { functions = insert (row.id, func) digest d.functions } =
            ground arith in
          let room : count_others row.id func d.functions < max_functions = ground arith in
          let keyed = insert-Keyed (row.id, func) digest d.functions w.keyed in
          rw made (record {
            keyed = keyed;
            few = (elim (Bool-cases (bytes_beq row.id id)) [
              | inr other ↦
                  rw (functions_of-insert_other id row.id func digest d.functions other) w.few
              | inl same ↦
                  let eq = (bytes_beq_iff row.id id).0 same in
                  let few : functions_of row.id (insert (row.id, func) digest d.functions)
                      ≤ max_functions =
                    omega (
                      arith,
                      functions_of-le row.id func (insert (row.id, func) digest d.functions) keyed,
                      count_others-insert row.id func digest d.functions,
                    ) in
                  subst
                    (λ j. functions_of j (insert (row.id, func) digest d.functions) ≤ max_functions)
                    eq few
            ]);
          })
    ]

commit-IsWithin :
    (max_functions : ℕ) (id : Uuid) (net' : PublishNetwork) (sys' : Io) (tenant func : Bytes)
    (disk : Disk) (answer : CommitAnswer) (before after : Database)
    → IsWithin max_functions id before
    → IsWithin max_functions id after
    → IsWithin max_functions id
        (finish_publish net' sys' tenant func disk (commit answer before after)).0
unfolding finish_publish commit
commit-IsWithin max_functions id net' sys' tenant func disk committed before after b a = a
commit-IsWithin max_functions id net' sys' tenant func disk refused before after b a = b
commit-IsWithin max_functions id net' sys' tenant func disk lost_committed before after b a = a
commit-IsWithin max_functions id net' sys' tenant func disk lost_refused before after b a = b

-- Whatever becomes of a publication, no tenant that was within the quota of functions is above it
-- afterwards, and each function still has one row. The quota is not negative.
pub publish_in_db-IsWithin :
    (net net' : PublishNetwork) (sys sys' : Io) (max_functions : ℕ) (id : Uuid) (d : Database)
    (disk : Disk) (tenant func digest : Bytes)
    → IsWithin max_functions id d
    → IsWithin max_functions id
        (publish_in_db net sys net' sys' (pos max_functions) d disk tenant func digest).0
unfolding publish_in_db
publish_in_db-IsWithin net net' sys sys' max_functions id d disk tenant func digest w =
    elim (Result-cases (publish_statements net (pos max_functions) d tenant func digest)) [
      | inr (r, f) ↦ rw (f, publish_in_db) w
      | inl (after, f) ↦ elim (Result-cases (activate sys disk tenant func digest).1) [
        | inr (e, g) ↦ rw (f, publish_in_db) (rw g w)
        | inl (t, g) ↦
            rw (f, publish_in_db)
              (rw g (
                commit-IsWithin max_functions id net' sys' tenant func
                  (activate sys disk tenant func digest).0 net.answer d after w
                  (publish_statements-IsWithin net max_functions id d after tenant func digest w
                    f)))
      ]
    ]
