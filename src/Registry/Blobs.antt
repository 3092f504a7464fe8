-- ===== src/Registry/Blobs.antt =====
-- crates/core/src/cache.rs: the `.cwasm` files, and `compile`, which prefers one to a compilation.
use warpline.Base.{
  ℕ, Bool, true, false, not, [], ◌++◌, none, some, if◌then◌else◌, length, Result, ok, err, ◌>>=◌,
  map_err, ok_or, Bytes, bytes_eq, pair_eq, lookup, insert,
}
use warpline.Base.Text.{codes}
use warpline.Types.Names.{is_valid_digest}
use warpline.Registry.Disk.{Disk, published, read_file}
use warpline.Registry.Pointer.{Error, io, wasmtime, bad_digest, Io}
use warpline.Registry.Wasmtime.{Wasmtime}

abbrev pub wasm_error : Error
wasm_error = wasmtime []

module _ (w : Wasmtime) where
  -- `cache_file_name`.
  unfoldable pub cache_file_name : Bytes → Bytes
  cache_file_name digest = digest ++ (codes "-" ++ (w.compat_hash ++ codes ".cwasm"))

  unfoldable pub load_cwasm : Disk → Bytes → Result Error w.Component
  load_cwasm d digest = if not (is_valid_digest digest) then err bad_digest else do
    bytes ← map_err io (read_file (lookup (cache_file_name digest) d.cwasm))
    ok_or wasm_error (w.deserialize bytes)

  abbrev pub cached_exists : Disk → Bytes → Bool
  cached_exists d digest = elim (lookup (cache_file_name digest) d.cwasm) [
    | none ↦ false
    | some f ↦ true
  ]

  unfoldable pub compile_fresh : Bytes → Result Error (w.Component × Bytes × Bool)
  compile_fresh wasm_bytes = do
    component ← ok_or wasm_error (w.compile wasm_bytes)
    ok (component, w.digest wasm_bytes, true)

  -- The component, its digest, and whether it was compiled.
  unfoldable pub compile : Disk → Bytes → Result Error (w.Component × Bytes × Bool)
  unfolding compile_fresh
  compile d wasm_bytes =
      if cached_exists d (w.digest wasm_bytes)
      then elim (load_cwasm d (w.digest wasm_bytes)) [
        | ok component ↦ ok (component, w.digest wasm_bytes, false)
        | err e ↦ compile_fresh wasm_bytes
      ]
      else compile_fresh wasm_bytes

  unfoldable pub write_cwasm : Disk → Bytes → Bytes → Disk
  write_cwasm d digest bytes = record d {
    cwasm = insert (cache_file_name digest) (published d.now bytes) d.cwasm;
  }

  -- The disk after the write, and the length of what was written.
  unfoldable pub persist_cwasm : Io → Disk → w.Component → Bytes → Disk × Result Error ℕ
  persist_cwasm sys d component digest = elim (w.serialize component) [
    | none ↦ (d, err wasm_error)
    | some serialized ↦ elim sys [
      | ok t ↦ (write_cwasm d digest serialized, ok (length serialized))
      | err e ↦ (d, err (io e))
    ]
  ]

  unfoldable pub typecheck_component : w.Component → Result Error (Unit {0})
  typecheck_component component = do pre ← ok_or wasm_error (w.instantiate_pre component); ok tt
