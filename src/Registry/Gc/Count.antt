-- ===== src/Registry/Gc/Count.antt =====
-- The number that the collection in crates/core/src/registry.rs returns.
use warpline.Base.{
  ℕ, ◌+◌, ◌≡◌, refl, sym, ap, ◌∙◌, inl, inr, List, arith, length, ok, err, Result-cases, Bytes,
  bytes_eq, pair_eq,
}
use warpline.Registry.Disk.{Disk}
use warpline.Registry.Pointer.{Error}
use warpline.Registry.Wasmtime.{Wasmtime}
use warpline.Registry.Gc.{
  Listing, referenced, delete_pass, sweep_tenants, wasm_collectible, cwasm_collectible,
  delete_cwasm, delete_blobs, gc_unreferenced_blobs,
}
use warpline.Registry.Gc.Passes.{delete_pass-count, sweep_tenants-count}

module _ (w : Wasmtime) (listing : Listing) (grace : ℕ) where
  abbrev files : Disk → ℕ
  files d = length d.tenants + length d.wasm + length d.cwasm

  delete_cwasm-count :
      (digests : List Bytes) (d : Disk) (removed n : ℕ)
      → (delete_cwasm w listing grace digests d removed).1 ≡ ok n
      → files (delete_cwasm w listing grace digests d removed).0 + n ≡ files d + removed
  unfolding delete_cwasm
  delete_cwasm-count digests d removed n h =
      let c = cwasm_collectible w.compat_hash digests in
      elim (Result-cases (delete_pass listing.list_cwasm c d.now grace d.cwasm).1) [
        | inr (i, e) ↦ absurd (ground arith)
        | inl (k, e) ↦
            let total : removed + k ≡ n = ground arith in
            omega (arith, delete_pass-count listing.list_cwasm c d.now grace k d.cwasm e)
      ]

  delete_blobs-count :
      (digests : List Bytes) (d : Disk) (removed n : ℕ)
      → (delete_blobs w listing grace digests d removed).1 ≡ ok n
      → files (delete_blobs w listing grace digests d removed).0 + n ≡ files d + removed
  unfolding delete_blobs
  delete_blobs-count digests d removed n h =
      let c = wasm_collectible digests in
      let pass = delete_pass listing.list_wasm c d.now grace d.wasm in
      let d' : Disk = record d { wasm = pass.0 } in
      elim (Result-cases pass.1) [
        | inr (i, e) ↦ absurd (stopped i (ap (λ x. x.1) (blobs-err i e)) h)
        | inl (k, e) ↦
            let next = blobs-ok k e in
            let rest =
              delete_cwasm-count digests d' (removed + k) n (sym (ap (λ x. x.1) next) ∙ h) in
            let same = ap (λ x. files x.0) next in
            omega (arith, delete_pass-count listing.list_wasm c d.now grace k d.wasm e)
      ]
    where
      d'' : Disk
      d'' = record d {
        wasm = (delete_pass listing.list_wasm (wasm_collectible digests) d.now grace d.wasm).0;
      }

      blobs-ok :
          (k : ℕ)
          → (delete_pass listing.list_wasm (wasm_collectible digests) d.now grace d.wasm).1 ≡ ok k
          → delete_blobs w listing grace digests d removed
            ≡ delete_cwasm w listing grace digests d'' (removed + k)
      blobs-ok k e = rw (e, delete_blobs) refl

      blobs-err :
          (i : Error)
          → (delete_pass listing.list_wasm (wasm_collectible digests) d.now grace d.wasm).1 ≡ err i
          → delete_blobs w listing grace digests d removed ≡ (d'', err i)
      blobs-err i e = rw (e, delete_blobs) refl

      stopped :
          (i : Error)
          → (delete_blobs w listing grace digests d removed).1 ≡ err i
          → (delete_blobs w listing grace digests d removed).1 ≡ ok n
          → ⊥
      stopped i a b = ground arith

-- A collection that finishes returns the number of files that it removed.
pub gc-count :
    (w : Wasmtime) (listing : Listing) (grace n : ℕ) (d : Disk)
    → (gc_unreferenced_blobs w listing grace d).1 ≡ ok n
    → let after = (gc_unreferenced_blobs w listing grace d).0 in
      length after.tenants + length after.wasm + length after.cwasm + n
      ≡ length d.tenants + length d.wasm + length d.cwasm
unfolding gc_unreferenced_blobs
gc-count w listing grace n d h = elim (Result-cases (referenced listing d)) [
  | inr (i, r) ↦ absurd (stopped i (rw (r, gc_unreferenced_blobs) refl))
  | inl (digests, r) ↦
      let swept = sweep_tenants listing.list_tenants d.now grace d.tenants in
      let next : gc_unreferenced_blobs w listing grace d
          ≡ delete_blobs w listing grace digests (record d { tenants = swept.0 }) swept.1 =
        rw (r, gc_unreferenced_blobs) refl in
      let rest =
        delete_blobs-count w listing grace digests (record d { tenants = swept.0 }) swept.1 n
          (sym (ap (λ x. x.1) next) ∙ h) in
      let same = ap (λ x. files w listing grace x.0) next in
      omega (arith, sweep_tenants-count listing.list_tenants d.now grace d.tenants)
]
  where
    stopped : (i : Error) → (gc_unreferenced_blobs w listing grace d).1 ≡ err i → ⊥
    stopped i a = ground arith
