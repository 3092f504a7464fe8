-- ===== src/Control/Publish.antt =====
-- `publish_in_db` and `try_reconcile` of crates/control/src/lib.rs: the row in `functions` and the
-- pointer file of a function, kept together. Publications of one tenant hold its advisory lock, so
-- each is one step.
pub mod Agree
pub mod Publishes
pub mod Quota
use warpline.Base.{
  ℕ, zero, suc, ◌+◌, ◌-◌, ◌*◌, ◌/◌, ◌%◌, ◌^◌, ◌≤◌, ◌<◌, min, max, ◌≡◌, refl, sym, ap, ◌∙◌, ◌≢◌, ◌↔◌,
  ◌⊎◌, inl, inr, Bool, true, false, not, ◌&&◌, ◌||◌, List, [], ◌∷◌, ◌++◌, map, Option, none, some,
  arith, ltb, leb, ◌==◌, if◌then◌else◌, ltb→lt, lt→ltb, leb→le, le→leb, ==_iff, Bool-cases,
  Option-cases, Bool-eq_of_iff, length, take, drop, replicate, length-append, length-take,
  take-append-drop, all, any, All, keep, sum_by, length-keep-le, word_mod, word_max, i64_max,
  wrapping_add, wrapping_sub, wrapping_mul, saturating_sub, saturating_add, ℤ, pos, negsuc,
  in_range, i64_or_max, Result, ok, err, ◌>>=◌, ◌>>◌, map_err, ok_or, ensure, is_ok, Result-cases,
  Eq, Bytes, bytes_beq, bytes_beq_iff, bytes_eq, pair_beq, pair_beq_iff, pair_eq, lookup, insert,
  remove, lookup-insert, lookup-remove, lookup-insert_self, weigh, weight_at, weigh-insert,
  weight_at-le,
}
use warpline.Registry.Disk.{Disk}
use warpline.Registry.Pointer.{Io}
use warpline.Runtime.Errors.{PublishError}
use warpline.Runtime.Publish.{activate, activate_digest, deactivate}
use warpline.Pg.Schema.{SqlError, unavailable, Uuid, TenantRow, Database, CommitAnswer, commit}
use warpline.Front.{Reply, reply}

abbrev pub default_max_functions_per_tenant : ℤ
default_max_functions_per_tenant = pos 100

abbrev pub pointer_error : Reply
pointer_error = reply 500 "failed to publish module"

abbrev pub internal_error : Reply
internal_error = reply 500 "internal error"

-- `SELECT count(*) FROM functions WHERE tenant_id = $1 AND name <> $2`.
unfoldable pub count_others : Uuid → Bytes → List ((Uuid × Bytes) × Bytes) → ℕ
count_others id func [] = 0
count_others id func (((i, name), hash) ∷ l) =
    (if bytes_beq i id && not (bytes_beq name func) then 1 else 0) + count_others id func l

-- `other_functions >= max_functions`, on i64.
unfoldable pub at_quota : ℤ → ℕ → Bool
at_quota (pos max_functions) n = leb max_functions n
at_quota (negsuc k) n = true

-- Does the database carry each statement? `BEGIN`, the two timeouts and the lock, and the queries.
pub record PublishNetwork : Type 0 where
  pub begin : Result SqlError (Unit {0})
  pub timeouts : Result SqlError (Unit {0})
  pub lock : Result SqlError (Unit {0})
  pub select : Result SqlError (Unit {0})
  pub count : Result SqlError (Unit {0})
  pub upsert : Result SqlError (Unit {0})
  pub answer : CommitAnswer

-- The statements of the transaction up to the upsert: the tables that it would commit.
unfoldable pub publish_statements :
    PublishNetwork → ℤ → Database → Bytes → Bytes → Bytes → Result Reply Database
publish_statements net max_functions d tenant func digest = do
  map_err (λ e. internal_error) net.begin
  map_err (λ e. internal_error) net.timeouts
  map_err (λ e. internal_error) net.lock
  map_err (λ e. internal_error) net.select
  row ← ok_or (reply 401 "unauthorized") (lookup tenant d.tenants)
  map_err (λ e. internal_error) net.count
  ensure (not (at_quota max_functions (count_others row.id func d.functions)))
      (reply 403 "tenant function quota exceeded")
  map_err (λ e. internal_error) net.upsert
  ok (record d { functions = insert (row.id, func) digest d.functions })

-- `SELECT f.wasm_hash FROM functions f JOIN tenants t … WHERE t.name = $1 AND f.name = $2`.
unfoldable pub select_hash : Database → Bytes → Bytes → Option Bytes
select_hash d tenant func = elim (lookup tenant d.tenants) [
  | none ↦ none
  | some row ↦ lookup (row.id, func) d.functions
]

pub data ReconcileError : Type 0 where
  from_sql : SqlError → ReconcileError
  from_publish : PublishError → ReconcileError

-- The pointer follows the row, or goes where there is none.
unfoldable pub settle :
    Io → Disk → Bytes → Bytes → Option Bytes → Disk × Result PublishError (Unit {0})
settle sys disk tenant func (some hash) = activate_digest sys disk tenant func hash
settle sys disk tenant func none = deactivate disk tenant func

unfoldable pub try_reconcile :
    PublishNetwork → Io → Database → Disk → Bytes → Bytes → Disk × Result ReconcileError (Unit {0})
try_reconcile net sys d disk tenant func =
    elim (net.begin >> net.timeouts >> net.lock >> net.select) [
      | err e ↦ (disk, err (from_sql e))
      | ok t ↦
          let r = settle sys disk tenant func (select_hash d tenant func) in
          elim r.1 [
            | err e ↦ (r.0, err (from_publish e))
            | ok u ↦ (r.0, map_err from_sql (commit net.answer d d).1)
          ]
    ]

-- `reconcile_pointer` logs a failure and goes on.
unfoldable pub reconcile_pointer : PublishNetwork → Io → Database → Disk → Bytes → Bytes → Disk
reconcile_pointer net sys d disk tenant func = (try_reconcile net sys d disk tenant func).0

-- The commit, once the pointer is switched.
unfoldable pub finish_publish :
    PublishNetwork
    → Io
    → Bytes
    → Bytes
    → Disk
    → Database × Result SqlError (Unit {0})
    → Database × Disk × Result Reply (Unit {0})
finish_publish net' sys' tenant func disk (d, ok t) = (d, disk, ok tt)
finish_publish net' sys' tenant func disk (d, err e) =
    (d, reconcile_pointer net' sys' d disk tenant func, err internal_error)

-- `net` and `sys` are what the transaction meets, `net'` and `sys'` what the reconciliation does.
unfoldable pub publish_in_db :
    PublishNetwork
    → Io
    → PublishNetwork
    → Io
    → ℤ
    → Database
    → Disk
    → Bytes
    → Bytes
    → Bytes
    → Database × Disk × Result Reply (Unit {0})
publish_in_db net sys net' sys' max_functions d disk tenant func digest =
    elim (publish_statements net max_functions d tenant func digest) [
      | err r ↦ (d, disk, err r)
      | ok after ↦
          let a = activate sys disk tenant func digest in
          elim a.1 [
            | err e ↦ (d, a.0, err pointer_error)
            | ok t ↦ finish_publish net' sys' tenant func a.0 (commit net.answer d after)
          ]
    ]

-- `publish_pointer`: without a database the pointer is all there is.
unfoldable pub publish_pointer :
    Bool
    → PublishNetwork
    → Io
    → PublishNetwork
    → Io
    → ℤ
    → Database
    → Disk
    → Bytes
    → Bytes
    → Bytes
    → Database × Disk × Result Reply (Unit {0})
publish_pointer false net sys net' sys' max_functions d disk tenant func digest =
    let a = activate sys disk tenant func digest in (d, a.0, map_err (λ e. pointer_error) a.1)
publish_pointer true net sys net' sys' max_functions d disk tenant func digest =
    publish_in_db net sys net' sys' max_functions d disk tenant func digest
