-- ===== src/Control/Upload.antt =====
-- `upload` of crates/control/src/lib.rs: from the request's path and header to the answer.
pub mod Guarded
pub mod Serves
use warpline.Base.{
  ℕ, zero, suc, ◌+◌, ◌-◌, ◌*◌, ◌/◌, ◌%◌, ◌^◌, ◌≤◌, ◌<◌, min, max, ◌≡◌, refl, sym, ap, ◌∙◌, ◌≢◌, ◌↔◌,
  ◌⊎◌, inl, inr, Bool, true, false, not, ◌&&◌, ◌||◌, List, [], ◌∷◌, ◌++◌, map, Option, none, some,
  arith, ltb, leb, ◌==◌, if◌then◌else◌, ltb→lt, lt→ltb, leb→le, le→leb, ==_iff, Bool-cases,
  Option-cases, Bool-eq_of_iff, length, take, drop, replicate, length-append, length-take,
  take-append-drop, all, any, All, keep, sum_by, length-keep-le, word_mod, word_max, i64_max,
  wrapping_add, wrapping_sub, wrapping_mul, saturating_sub, saturating_add, ℤ, pos, negsuc,
  in_range, i64_or_max, Result, ok, err, ◌>>=◌, ◌>>◌, map_err, ok_or, ensure, is_ok, Result-cases,
  Eq, Bytes, bytes_beq, bytes_beq_iff, bytes_eq, pair_beq, pair_beq_iff, pair_eq, lookup, insert,
  remove, lookup-insert, lookup-remove, lookup-insert_self, weigh, weight_at, weigh-insert,
  weight_at-le,
}
use Prim.Native.String.{String}
use warpline.Base.Text.{codes}
use warpline.Types.Names.{valid_name}
use warpline.Types.Limits.{Limits}
use warpline.Registry.Disk.{Disk}
use warpline.Registry.Pointer.{Error, Io}
use warpline.Registry.Lru.{Lru}
use warpline.Registry.Wasmtime.{Wasmtime}
use warpline.Runtime.Errors.{PublishError, compile_failed, import_mismatch}
use warpline.Runtime.Publish.{stage}
use warpline.Pg.Schema.{SqlError, Database}
use warpline.Pg.Auth.{AuthRow, Cached, Clock, Authenticator}
use warpline.Front.{Reply, reply, limits_or_reply, authenticate_request}
use warpline.Control.Publish.{PublishNetwork, publish_pointer, default_max_functions_per_tenant}

-- One field of a multipart body: its name, and its bytes or the status of the failure to read them.
pub record Field : Type 0 where
  pub name : Option Bytes
  pub bytes : Result ℕ Bytes

abbrev pub name_or_empty : Option Bytes → Bytes
name_or_empty none = []
name_or_empty (some s) = s

unfoldable pub is_wasm_field : Bytes → Bool
is_wasm_field name =
    bytes_beq name (codes "wasm")
    || bytes_beq name (codes "module")
    || bytes_beq name (codes "file")

-- `multipart.next_field()` until it gives `None`: a field, or the status of a malformed or oversized
-- body. The last field with one of the names counts.
unfoldable pub read_fields : Option Bytes → List (Result ℕ Field) → Result Reply (Option Bytes)
read_fields wasm_bytes [] = ok wasm_bytes
read_fields wasm_bytes (err status ∷ fields) = err (reply status "multipart error")
read_fields wasm_bytes (ok field ∷ fields) = elim (is_wasm_field (name_or_empty field.name)) [
  | false ↦ read_fields wasm_bytes fields
  | true ↦ elim field.bytes [
    | err status ↦ err (reply status "read field failed")
    | ok b ↦ read_fields (some b) fields
  ]
]

unfoldable pub stage_error : PublishError → Reply
stage_error (compile_failed e) = reply 422 "invalid wasm component"
stage_error (import_mismatch e) =
    reply 422
      "component does not match the warpline handler world (missing export or unsatisfiable import)"
stage_error e = reply 500 "failed to publish module"

module _ (w : Wasmtime) (c : Lru (ℕ × Cached)) where
  pub record AppState : Type 0 where
    pub disk : Disk
    pub tables : Database
    pub auth : Option (Authenticator c w.digest)
    pub admin_token : Option Bytes
    pub max_functions_per_tenant : ℤ

  -- `AppState::new`.
  unfoldable pub new_state : Disk → Database → Option (Authenticator c w.digest) → AppState
  new_state disk tables auth = record {
    disk = disk;
    tables = tables;
    auth = auth;
    admin_token = none;
    max_functions_per_tenant = default_max_functions_per_tenant;
  }

  abbrev pub has_database : Option (Authenticator c w.digest) → Bool
  has_database none = false
  has_database (some a) = true

  -- What the network, the file system and the clock do to the request.
  pub record World : Type 0 where
    pub clock : Clock
    pub answer : Result SqlError (Option AuthRow)
    pub persist : Io
    pub source : Io
    pub net : PublishNetwork
    pub pointer : Io
    pub reconcile_net : PublishNetwork
    pub reconcile_pointer : Io

  abbrev pub after_publish :
      AppState → Bytes → Database × Disk × Result Reply (Unit {0}) → AppState × Result Reply Bytes
  after_publish state digest (tables, disk, r) =
      (record state { tables = tables; disk = disk }, elim r [ ok t ↦ ok digest | err e ↦ err e ])

  -- The upload of a body that was read: staged, then after_publish. A success is 201 with the digest.
  unfoldable pub upload_wasm :
      World → AppState → Bytes → Bytes → Bytes → AppState × Result Reply Bytes
  upload_wasm world state tenant func wasm =
      let staged = stage w world.persist world.source state.disk wasm in
      elim staged.1 [
        | err e ↦ (record state { disk = staged.0 }, err (stage_error e))
        | ok digest ↦ after_publish state digest (
            publish_pointer (has_database state.auth) world.net world.pointer world.reconcile_net
              world.reconcile_pointer state.max_functions_per_tenant state.tables staged.0 tenant
              func digest)
      ]

  unfoldable pub upload_body :
      World → AppState → Bytes → Bytes → List (Result ℕ Field) → AppState × Result Reply Bytes
  upload_body world state tenant func fields = elim (read_fields none fields) [
    | err r ↦ (state, err r)
    | ok none ↦ (state, err (reply 400 "missing wasm field"))
    | ok (some wasm) ↦ upload_wasm world state tenant func wasm
  ]

  unfoldable pub upload_as :
      World
      → AppState
      → Bytes
      → Bytes
      → List (Result ℕ Field)
      → Result Reply Limits
      → AppState × Result Reply Bytes
  upload_as world state tenant func fields (err r) = (state, err r)
  upload_as world state tenant func fields (ok limits) = upload_body world state tenant func fields

  unfoldable pub upload :
      World
      → AppState
      → Bytes
      → Bytes
      → Option Bytes
      → List (Result ℕ Field)
      → AppState × Result Reply Bytes
  upload world state tenant func header fields =
      if not (valid_name tenant) || not (valid_name func)
      then (state, err (reply 400 "invalid tenant or function name"))
      else let a =
          authenticate_request c w.digest state.auth world.clock world.answer tenant header in
        upload_as world (record state { auth = a.0 }) tenant func fields (limits_or_reply a.1)
