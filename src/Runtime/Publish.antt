-- ===== src/Runtime/Publish.antt =====
-- `stage`, `activate`, `active`, `deactivate`, `activate_digest` and `publish` of
-- crates/core/src/runtime.rs. A task on the blocking pool runs to its end; the errors of the system
-- in its writes are arguments.
pub mod Laws
use warpline.Base.{
  ℕ, zero, suc, ◌+◌, ◌-◌, ◌*◌, ◌/◌, ◌%◌, ◌^◌, ◌≤◌, ◌<◌, min, max, ◌≡◌, refl, sym, ap, ◌∙◌, ◌≢◌, ◌↔◌,
  ◌⊎◌, inl, inr, Bool, true, false, not, ◌&&◌, ◌||◌, List, [], ◌∷◌, ◌++◌, map, Option, none, some,
  arith, ltb, leb, ◌==◌, if◌then◌else◌, ltb→lt, lt→ltb, leb→le, le→leb, ==_iff, Bool-cases,
  Option-cases, Bool-eq_of_iff, length, take, drop, replicate, length-append, length-take,
  take-append-drop, all, any, All, keep, sum_by, length-keep-le, word_mod, word_max, i64_max,
  wrapping_add, wrapping_sub, wrapping_mul, saturating_sub, saturating_add, ℤ, pos, negsuc,
  in_range, i64_or_max, Result, ok, err, ◌>>=◌, ◌>>◌, map_err, ok_or, ensure, is_ok, Result-cases,
  Eq, Bytes, bytes_beq, bytes_beq_iff, bytes_eq, pair_beq, pair_beq_iff, pair_eq, lookup, insert,
  remove, lookup-insert, lookup-remove, lookup-insert_self, weigh, weight_at, weigh-insert,
  weight_at-le,
}
use warpline.Types.Names.{valid_name, is_valid_digest}
use warpline.Registry.Disk.{File, Disk, IoError, touch}
use warpline.Registry.Pointer.{
  Error, io, wasmtime, bad_digest, unknown_digest, Io, wasm_exists, write_pointer, remove_pointer,
  read_pointer, write_wasm_source,
}
use warpline.Registry.Wasmtime.{Wasmtime}
use warpline.Registry.Blobs.{cache_file_name, compile, persist_cwasm, typecheck_component}
use warpline.Runtime.Errors.{
  PublishError, bad_publish_name, compile_failed, import_mismatch, registry, into_publish_err,
}

-- What `stage` makes of an error of `cache::compile`.
abbrev pub compile_err : Error → PublishError
compile_err (wasmtime e) = compile_failed (wasmtime e)
compile_err e = into_publish_err e

abbrev pub done {ℓ} : {A : Type ℓ} → Result Error A → Result PublishError (Unit {0})
done (ok a) = ok tt
done (err e) = err (into_publish_err e)

unfoldable pub activate : Io → Disk → Bytes → Bytes → Bytes → Disk × Result PublishError (Unit {0})
activate sys d tenant func digest =
    if not (valid_name tenant) || not (valid_name func)
    then (d, err bad_publish_name)
    else let r = write_pointer sys d tenant func digest in (r.0, done r.1)

unfoldable pub active : Disk → Bytes → Bytes → Result PublishError (Option Bytes)
active d tenant func =
    if not (valid_name tenant) || not (valid_name func)
    then err bad_publish_name
    else map_err into_publish_err (read_pointer d tenant func)

unfoldable pub deactivate : Disk → Bytes → Bytes → Disk × Result PublishError (Unit {0})
deactivate d tenant func =
    if not (valid_name tenant) || not (valid_name func)
    then (d, err bad_publish_name)
    else let r = remove_pointer d tenant func in (r.0, done r.1)

unfoldable pub activate_digest :
    Io → Disk → Bytes → Bytes → Bytes → Disk × Result PublishError (Unit {0})
activate_digest sys d tenant func digest =
    if not (valid_name tenant) || not (valid_name func)
    then (d, err bad_publish_name)
    else if not (is_valid_digest digest)
    then (d, err (registry bad_digest))
    else if not (wasm_exists d digest)
    then (d, err (registry (unknown_digest digest)))
    else activate sys d tenant func digest

module _ (w : Wasmtime) where
  -- `registry::touch` on the `.cwasm`, whose failure is only logged.
  unfoldable pub refresh_cwasm : Disk → Bytes → Disk
  refresh_cwasm d digest = elim (touch d.now (lookup (cache_file_name w digest) d.cwasm)) [
    | ok f ↦ record d { cwasm = insert (cache_file_name w digest) f d.cwasm }
    | err e ↦ d
  ]

  unfoldable pub persist_or_refresh :
      Io → Disk → w.Component → Bytes → Bool → Disk × Result PublishError (Unit {0})
  persist_or_refresh sys d component digest true =
      let r = persist_cwasm w sys d component digest in (r.0, done r.1)
  persist_or_refresh sys d component digest false = (refresh_cwasm d digest, ok tt)

  unfoldable pub stage_source : Io → Disk → Bytes → Bytes → Disk × Result PublishError Bytes
  stage_source sys d digest wasm =
      let r = write_wasm_source sys d digest wasm in
      (r.0, elim r.1 [ ok t ↦ ok digest | err e ↦ err (into_publish_err e) ])

  unfoldable pub stage_component :
      Io → Io → Disk → Bytes → w.Component → Bytes → Bool → Disk × Result PublishError Bytes
  stage_component sys sys' d wasm component digest fresh = elim (typecheck_component w component) [
    | err e ↦ (d, err (import_mismatch e))
    | ok t ↦
        let r = persist_or_refresh sys d component digest fresh in
        elim r.1 [ err e ↦ (r.0, err e) | ok u ↦ stage_source sys' r.0 digest wasm ]
  ]

  -- `stage`: the disk, and the digest of what was staged.
  unfoldable pub stage : Io → Io → Disk → Bytes → Disk × Result PublishError Bytes
  stage sys sys' d wasm = elim (compile w d wasm) [
    | err e ↦ (d, err (compile_err e))
    | ok (component, digest, fresh) ↦ stage_component sys sys' d wasm component digest fresh
  ]

  unfoldable pub publish :
      Io → Io → Io → Disk → Bytes → Bytes → Bytes → Disk × Result PublishError Bytes
  publish sys sys' sys'' d tenant func wasm =
      if not (valid_name tenant) || not (valid_name func)
      then (d, err bad_publish_name)
      else let staged = stage sys sys' d wasm in
        elim staged.1 [
          | err e ↦ (staged.0, err e)
          | ok digest ↦
              let r = activate sys'' staged.0 tenant func digest in
              (r.0, elim r.1 [ ok t ↦ ok digest | err e ↦ err e ])
        ]
