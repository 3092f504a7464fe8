-- ===== src/Registry/Gc.antt =====
-- `gc_unreferenced_blobs` and `sweep_stale_temp_files` of crates/core/src/registry.rs. A listing of
-- a directory may find nothing there or fail; one that works gives the files of the disk. A file
-- that is listed can be examined, so `older_than` reads its time of modification.
pub mod Names
pub mod Passes
pub mod Referenced
pub mod Safety
pub mod Count
use warpline.Base.{
  ℕ, zero, suc, ◌+◌, ◌-◌, ◌*◌, ◌/◌, ◌%◌, ◌^◌, ◌≤◌, ◌<◌, min, max, ◌≡◌, refl, sym, ap, ◌∙◌, ◌≢◌, ◌↔◌,
  ◌⊎◌, inl, inr, Bool, true, false, not, ◌&&◌, ◌||◌, List, [], ◌∷◌, ◌++◌, map, Option, none, some,
  arith, ltb, leb, ◌==◌, if◌then◌else◌, ltb→lt, lt→ltb, leb→le, le→leb, ==_iff, Bool-cases,
  Option-cases, Bool-eq_of_iff, length, take, drop, replicate, length-append, length-take,
  take-append-drop, all, any, All, keep, sum_by, length-keep-le, word_mod, word_max, i64_max,
  wrapping_add, wrapping_sub, wrapping_mul, saturating_sub, saturating_add, ℤ, pos, negsuc,
  in_range, i64_or_max, Result, ok, err, ◌>>=◌, ◌>>◌, map_err, ok_or, ensure, is_ok, Result-cases,
  Eq, Bytes, bytes_beq, bytes_beq_iff, bytes_eq, pair_beq, pair_beq_iff, pair_eq, lookup, insert,
  remove, lookup-insert, lookup-remove, lookup-insert_self, weigh, weight_at, weigh-insert,
  weight_at-le,
}
use warpline.Base.Text.{codes}
use warpline.Types.Names.{is_valid_digest}
use warpline.Registry.Disk.{File, Disk, IoError, not_found, failed, read_file}
use warpline.Registry.Pointer.{Error, io, trim}
use warpline.Registry.Wasmtime.{Wasmtime}

-- `str::starts_with`.
unfoldable pub starts_with : Bytes → Bytes → Bool
starts_with [] s = true
starts_with (p ∷ ps) [] = false
starts_with (p ∷ ps) (b ∷ s) = p == b && starts_with ps s

-- `str::strip_suffix`.
unfoldable pub strip_suffix : Bytes → Bytes → Option Bytes
strip_suffix suffix s =
    let n : ℕ = length s - length suffix in
    if bytes_beq (take n s ++ suffix) s then some (take n s) else none

-- `split_once('-')`.
unfoldable pub split_once : Bytes → Option (Bytes × Bytes)
split_once [] = none
split_once (b ∷ s) = elim (b == 45) [
  | true ↦ some ([], s)
  | false ↦ elim (split_once s) [ none ↦ none | some r ↦ some (b ∷ r.0, r.1) ]
]

abbrev pub is_temp : Bytes → Bool
is_temp name = starts_with (codes ".tmp") name

-- `mtime.elapsed().unwrap_or(Duration::ZERO) >= grace_period`.
unfoldable pub older_than : ℕ → ℕ → File → Bool
older_than now grace f = leb grace (now - f.mtime)

-- What one pointer file adds to the digests that the rest refer to.
unfoldable pub add_reference :
    Result IoError Bytes → Result Error (List Bytes) → Result Error (List Bytes)
add_reference (err not_found) rest = rest
add_reference (err failed) rest = err (io failed)
add_reference (ok contents) rest = do
  digests ← rest
  ok (if is_valid_digest (trim contents) then trim contents ∷ digests else digests)

-- Pass 1, over the files under `tenants/`.
unfoldable pub references : List ((Bytes × Bytes) × File) → Result Error (List Bytes)
unfolding add_reference
references [] = ok []
references ((path, f) ∷ l) = elim (is_temp path.1) [
  | true ↦ references l
  | false ↦ add_reference (read_file (some f)) (references l)
]

-- Whether each of the three directories can be listed.
pub record Listing : Type 0 where
  pub list_tenants : Result IoError (Unit {0})
  pub list_wasm : Result IoError (Unit {0})
  pub list_cwasm : Result IoError (Unit {0})

unfoldable pub referenced : Listing → Disk → Result Error (List Bytes)
unfolding references
referenced listing d = elim listing.list_tenants [
  | ok t ↦ references d.tenants
  | err not_found ↦ ok []
  | err failed ↦ err (io failed)
]

-- A file goes if it is collectible by its name, old enough, and the system lets it go.
abbrev pub goes {ℓ} : {K : Type ℓ} → (K → Bool) → ℕ → ℕ → K × File → Bool
goes collectible now grace e = collectible e.0 && (older_than now grace e.1 && e.1.removable)

-- The files that stay, and how many went.
unfoldable pub delete_files {ℓ} :
    {K : Type ℓ} → (K → Bool) → ℕ → ℕ → List (K × File) → List (K × File) × ℕ
delete_files collectible now grace l =
    (keep (λ e. not (goes collectible now grace e)) l, length (keep (goes collectible now grace) l))

-- `wasm/` and `cwasm/`: the stale temporary files, then the blobs.
unfoldable pub delete_pass :
    Result IoError (Unit {0})
    → (Bytes → Bool)
    → ℕ
    → ℕ
    → List (Bytes × File)
    → List (Bytes × File) × Result Error ℕ
delete_pass (err not_found) collectible now grace l = (l, ok 0)
delete_pass (err failed) collectible now grace l = (l, err (io failed))
delete_pass (ok t) collectible now grace l =
    let swept = delete_files is_temp now grace l in
    let rest = delete_files collectible now grace swept.0 in (rest.0, ok (swept.1 + rest.1))

-- The sweep of the tenants' directories.
unfoldable pub sweep_tenants :
    Result IoError (Unit {0})
    → ℕ
    → ℕ
    → List ((Bytes × Bytes) × File)
    → List ((Bytes × Bytes) × File) × ℕ
sweep_tenants (err e) now grace l = (l, 0)
sweep_tenants (ok t) now grace l = delete_files (λ p. is_temp p.1) now grace l

abbrev pub contains : List Bytes → Bytes → Bool
contains digests s = any (λ d. bytes_beq d s) digests

unfoldable pub wasm_collectible : List Bytes → Bytes → Bool
wasm_collectible digests name = elim (strip_suffix (codes ".wasm") name) [
  | none ↦ false
  | some digest ↦ not (contains digests digest)
]

unfoldable pub cwasm_collectible : Bytes → List Bytes → Bytes → Bool
cwasm_collectible current_compat digests name = elim (strip_suffix (codes ".cwasm") name) [
  | none ↦ false
  | some rest ↦ elim (split_once rest) [
    | none ↦ false
    | some (digest, compat) ↦ not (contains digests digest) || not (bytes_beq compat current_compat)
  ]
]

module _ (w : Wasmtime) where
  unfoldable pub delete_cwasm : Listing → ℕ → List Bytes → Disk → ℕ → Disk × Result Error ℕ
  delete_cwasm listing grace digests d removed =
      let pass =
        delete_pass listing.list_cwasm (cwasm_collectible w.compat_hash digests) d.now grace
          d.cwasm in
      (record d { cwasm = pass.0 }, elim pass.1 [ ok n ↦ ok (removed + n) | err e ↦ err e ])

  unfoldable pub delete_blobs : Listing → ℕ → List Bytes → Disk → ℕ → Disk × Result Error ℕ
  delete_blobs listing grace digests d removed =
      let pass = delete_pass listing.list_wasm (wasm_collectible digests) d.now grace d.wasm in
      let d' : Disk = record d { wasm = pass.0 } in
      elim pass.1 [
        | err e ↦ (d', err e)
        | ok n ↦ delete_cwasm listing grace digests d' (removed + n)
      ]

  unfoldable pub gc_unreferenced_blobs : Listing → ℕ → Disk → Disk × Result Error ℕ
  gc_unreferenced_blobs listing grace d = elim (referenced listing d) [
    | err e ↦ (d, err e)
    | ok digests ↦
        let swept = sweep_tenants listing.list_tenants d.now grace d.tenants in
        delete_blobs listing grace digests (record d { tenants = swept.0 }) swept.1
  ]
