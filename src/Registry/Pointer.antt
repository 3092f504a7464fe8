-- ===== src/Registry/Pointer.antt =====
-- Pointer files and source blobs in crates/core/src/registry.rs, and `atomic_write` of
-- crates/core/src/cache.rs. Each operation gives the disk that it leaves, also where it fails;
-- `atomic_write` either publishes the whole file or, on an error of the system, changes nothing
-- that is published: that error is the argument `io`.
pub mod Laws
use warpline.Base.{
  ℕ, zero, suc, ◌+◌, ◌-◌, ◌*◌, ◌/◌, ◌%◌, ◌^◌, ◌≤◌, ◌<◌, min, max, ◌≡◌, refl, sym, ap, ◌∙◌, ◌≢◌, ◌↔◌,
  ◌⊎◌, inl, inr, Bool, true, false, not, ◌&&◌, ◌||◌, List, [], ◌∷◌, ◌++◌, map, Option, none, some,
  arith, ltb, leb, ◌==◌, if◌then◌else◌, ltb→lt, lt→ltb, leb→le, le→leb, ==_iff, Bool-cases,
  Option-cases, Bool-eq_of_iff, length, take, drop, replicate, length-append, length-take,
  take-append-drop, all, any, All, keep, sum_by, length-keep-le, word_mod, word_max, i64_max,
  wrapping_add, wrapping_sub, wrapping_mul, saturating_sub, saturating_add, ℤ, pos, negsuc,
  in_range, i64_or_max, Result, ok, err, ◌>>=◌, ◌>>◌, map_err, ok_or, ensure, is_ok, Result-cases,
  Eq, Bytes, bytes_beq, bytes_beq_iff, bytes_eq, pair_beq, pair_beq_iff, pair_eq, lookup, insert,
  remove, lookup-insert, lookup-remove, lookup-insert_self, weigh, weight_at, weigh-insert,
  weight_at-le,
}
use warpline.Base.Text.{codes}
use warpline.Base.Trim.{trim_start, trim_end}
use warpline.Types.Names.{valid_name, is_valid_digest}
use warpline.Types.Bearer.{is_whitespace}
use warpline.Registry.Disk.{
  File, Disk, published, IoError, not_found, failed, read_file, touch, remove_file,
}

-- `crate::Error`, with the cases that the registry raises and those that it passes on.
pub data Error : Type 0 where
  io : IoError → Error
  wasmtime : Bytes → Error
  bad_digest bad_name corrupt_pointer no_source : Error
  unknown_digest : Bytes → Error
  config : Bytes → Error
  internal : Error

-- Does the system let `atomic_write` finish?
abbrev pub Io : Type 0
Io = Result IoError (Unit {0})

-- `pointer_path`: the place of the file, by tenant and function.
unfoldable pub pointer_path : Bytes → Bytes → Option (Bytes × Bytes)
pointer_path tenant func =
    if not (valid_name tenant) || not (valid_name func) then none else some (tenant, func)

-- `wasm_path`: the name under `wasm/`.
unfoldable pub wasm_name : Bytes → Bytes
wasm_name digest = digest ++ codes ".wasm"

unfoldable pub wasm_exists : Disk → Bytes → Bool
wasm_exists d digest =
    is_valid_digest digest
    && elim (lookup (wasm_name digest) d.wasm) [ none ↦ false | some f ↦ true ]

unfoldable pub write_at : Disk → Bytes × Bytes → Bytes → Disk
write_at d path digest = record d { tenants = insert path (published d.now digest) d.tenants }

unfoldable pub write_pointer : Io → Disk → Bytes → Bytes → Bytes → Disk × Result Error (Unit {0})
write_pointer sys d tenant func digest =
    if not (is_valid_digest digest) then (d, err bad_digest) else elim (pointer_path tenant func) [
      | none ↦ (d, err bad_name)
      | some path ↦ elim sys [ ok t ↦ (write_at d path digest, ok tt) | err e ↦ (d, err (io e)) ]
    ]

-- What `remove_pointer` makes of the result of `remove_file`.
unfoldable pub removed :
    Disk → Bytes × Bytes → Result IoError (Unit {0}) → Disk × Result Error (Unit {0})
removed d path (ok t) = (record d { tenants = remove path d.tenants }, ok tt)
removed d path (err not_found) = (d, ok tt)
removed d path (err failed) = (d, err (io failed))

unfoldable pub remove_pointer : Disk → Bytes → Bytes → Disk × Result Error (Unit {0})
unfolding removed
remove_pointer d tenant func = elim (pointer_path tenant func) [
  | none ↦ (d, ok tt)
  | some path ↦ removed d path (remove_file (lookup path d.tenants))
]

-- `str::trim` on the contents of a pointer file.
abbrev pub trim : Bytes → Bytes
trim s = trim_end is_whitespace (trim_start is_whitespace s)

-- What `read_pointer` makes of the file's contents.
unfoldable pub parse_pointer : Result IoError Bytes → Result Error (Option Bytes)
parse_pointer (err not_found) = ok none
parse_pointer (err failed) = err (io failed)
parse_pointer (ok contents) =
    if not (is_valid_digest (trim contents)) then err corrupt_pointer else ok (some (trim contents))

unfoldable pub read_pointer : Disk → Bytes → Bytes → Result Error (Option Bytes)
unfolding parse_pointer
read_pointer d tenant func = elim (pointer_path tenant func) [
  | none ↦ ok none
  | some path ↦ parse_pointer (read_file (lookup path d.tenants))
]

-- What `write_wasm_source` does after `touch`.
unfoldable pub write_untouched :
    Io → Disk → Bytes → Bytes → Result IoError File → Disk × Result Error (Unit {0})
write_untouched sys d digest bytes (ok f) =
    (record d { wasm = insert (wasm_name digest) f d.wasm }, ok tt)
write_untouched sys d digest bytes (err failed) = (d, err (io failed))
write_untouched sys d digest bytes (err not_found) = elim sys [
  | ok t ↦ (record d { wasm = insert (wasm_name digest) (published d.now bytes) d.wasm }, ok tt)
  | err e ↦ (d, err (io e))
]

unfoldable pub write_wasm_source : Io → Disk → Bytes → Bytes → Disk × Result Error (Unit {0})
unfolding write_untouched
write_wasm_source sys d digest bytes =
    if not (is_valid_digest digest)
    then (d, err bad_digest)
    else write_untouched sys d digest bytes (touch d.now (lookup (wasm_name digest) d.wasm))
