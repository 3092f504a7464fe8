-- ===== src/Registry/Gc/Safety.antt =====
-- What the collection in crates/core/src/registry.rs leaves alone, and what it takes.
use warpline.Base.{
  ℕ, ◌-◌, ◌<◌, ◌≡◌, refl, sym, ap, ◌∙◌, ◌⊎◌, inl, inr, Bool, true, false, not, ◌&&◌, ◌||◌, List,
  some, arith, Option-cases, Result, ok, err, Result-cases, Bytes, bytes_beq, bytes_beq_iff,
  bytes_eq, pair_eq, lookup,
}
use warpline.Types.Names.{is_valid_digest, valid_name}
use warpline.Registry.Disk.{File, Disk, IoError, failed, read_file}
use warpline.Registry.Pointer.{Error, io, pointer_path, parse_pointer, read_pointer, wasm_name}
use warpline.Registry.Wasmtime.{Wasmtime}
use warpline.Registry.Blobs.{cache_file_name}
use warpline.Registry.Gc.{
  is_temp, older_than, goes, references, Listing, referenced, delete_pass, sweep_tenants, contains,
  wasm_collectible, cwasm_collectible, gc_unreferenced_blobs,
}
use warpline.Registry.Gc.Names.{
  is_temp-wasm_name, is_temp-cache_file_name, is_temp-valid_name, wasm_collectible-name,
  cwasm_collectible-name,
}
use warpline.Registry.Gc.Passes.{
  delete_pass-absent, delete_files-stays, delete_pass-stays, delete_pass-clears,
}
use warpline.Registry.Gc.Referenced.{
  read_pointer-file, references-unreadable, references-contains, gc-parts,
}

referenced-listed :
    (listing : Listing) (d : Disk)
    → listing.list_tenants ≡ ok tt
    → referenced listing d ≡ references d.tenants
unfolding referenced
referenced-listed listing d e = rw e refl

gc-stopped :
    (w : Wasmtime) (listing : Listing) (grace : ℕ) (d : Disk) (x : Error)
    → referenced listing d ≡ err x
    → gc_unreferenced_blobs w listing grace d ≡ (d, err x)
unfolding gc_unreferenced_blobs
gc-stopped w listing grace d x r = rw (r, gc_unreferenced_blobs) refl

-- A pointer's reading is that of the file under it.
read_pointer-same :
    (d d' : Disk) (t f : Bytes)
    → lookup (t, f) d'.tenants ≡ lookup (t, f) d.tenants
    → read_pointer d' t f ≡ read_pointer d t f
unfolding read_pointer pointer_path
read_pointer-same d d' t f same = elim (Option-cases (pointer_path t f)) [
  | inl invalid ↦ rw (invalid, read_pointer) refl
  | inr (q, e) ↦
      let at : q ≡ (t, f) = ground arith in
      let moved : lookup q d'.tenants ≡ lookup q d.tenants =
        ap (λ p. lookup p d'.tenants) at ∙ same ∙ ap (λ p. lookup p d.tenants) (sym at) in
      rw (e, read_pointer) (ap (λ o. parse_pointer (read_file o)) moved)
]

sweep_tenants-stays :
    (r : Result IoError (Unit {0})) (now grace : ℕ) (p : Bytes × Bytes) (f : File)
    (l : List ((Bytes × Bytes) × File))
    → lookup p l ≡ some f
    → is_temp p.1 ≡ false
    → lookup p (sweep_tenants r now grace l).0 ≡ some f
unfolding sweep_tenants
sweep_tenants-stays (ok u) now grace p f l h t =
    delete_files-stays (λ q. is_temp q.1) now grace p f l h (rw t refl)
sweep_tenants-stays (err i) now grace p f l h t = h

-- A name that no pass collects is found as before, also where there is no file.
delete_pass-same :
    (r : Result IoError (Unit {0})) (c : Bytes → Bool) (now grace : ℕ) (k : Bytes)
    (l : List (Bytes × File))
    → is_temp k ≡ false
    → c k ≡ false
    → lookup k (delete_pass r c now grace l).0 ≡ lookup k l
delete_pass-same r c now grace k l t h = elim (Option-cases (lookup k l)) [
  | inl absent ↦ delete_pass-absent r c now grace k l absent ∙ sym absent
  | inr (f, there) ↦ delete_pass-stays r c now grace k f l there (rw t refl) (rw h refl) ∙ sym there
]

unread : (f : File) → f.readable ≡ false → read_file (some f) ≡ err failed
unfolding read_file
unread f shut = ground arith

spared :
    (live : Bool) (now grace : ℕ) (f : File)
    → (not live && (older_than now grace f && f.removable)) ≡ false
    → (live ≡ true) ⊎ (now - f.mtime < grace) ⊎ (f.removable ≡ false)
unfolding older_than
spared live now grace f h = ground arith

too_young :
    (c : Bytes → Bool) (now grace : ℕ) (k : Bytes) (f : File)
    → now - f.mtime < grace
    → goes c now grace (k, f) ≡ false
unfolding older_than
too_young c now grace k f h = ground arith

-- If the tenants' directories can be listed, and a pointer file, one whose name does not start with
-- `.tmp`, is there and cannot be read, the collection fails and leaves the whole disk as it was.
pub gc-unreadable :
    (w : Wasmtime) (listing : Listing) (grace : ℕ) (d : Disk) (path : Bytes × Bytes) (f : File)
    → listing.list_tenants ≡ ok tt
    → lookup path d.tenants ≡ some f
    → is_temp path.1 ≡ false
    → f.readable ≡ false
    → gc_unreferenced_blobs w listing grace d ≡ (d, err (io failed))
gc-unreadable w listing grace d path f e there t shut =
    let fails : read_file (some f) ≡ err failed = unread f shut in
    let stops : referenced listing d ≡ err (io failed) =
      referenced-listed listing d e ∙ references-unreadable d.tenants path f there t fails in
    gc-stopped w listing grace d (io failed) stops

-- If the tenants' directories can be listed, then whatever a collection does, one that fails
-- included, a pointer that resolves still resolves to its digest afterwards, and the source of that
-- digest and its `.cwasm` for the current engine are there exactly as they were, or absent as they
-- were.
pub gc-keeps_live :
    (w : Wasmtime) (listing : Listing) (grace : ℕ) (d : Disk) (tenant func digest : Bytes)
    → listing.list_tenants ≡ ok tt
    → read_pointer d tenant func ≡ ok (some digest)
    → let after = (gc_unreferenced_blobs w listing grace d).0 in
      (read_pointer after tenant func ≡ ok (some digest))
      × (lookup (wasm_name digest) after.wasm ≡ lookup (wasm_name digest) d.wasm)
      × (lookup (cache_file_name w digest) after.cwasm ≡ lookup (cache_file_name w digest) d.cwasm)
gc-keeps_live w listing grace d tenant func digest e live =
    let (vf, vd, (x, there, (c, opens, trimmed))) = read_pointer-file d tenant func digest live in
    elim (Result-cases (referenced listing d)) [
      | inr (i, r) ↦ rw (gc-stopped w listing grace d i r) (live, refl, refl)
      | inl (digests, r) ↦
          let (tenants, wasm, cwasm) = gc-parts w listing grace d digests r in
          let listed : references d.tenants ≡ ok digests =
            sym (referenced-listed listing d e) ∙ r in
          let known : contains digests digest ≡ true =
            ap (contains digests) (sym trimmed)
            ∙ references-contains d.tenants (tenant, func) x c digests there
                (is_temp-valid_name func vf) opens (ap is_valid_digest trimmed ∙ vd) listed in
          (
            live_pointer x there vf tenants,
            live_source digests vd known wasm,
            live_cwasm digests vd known cwasm,
          )
    ]
  where
    after : Disk
    after = (gc_unreferenced_blobs w listing grace d).0

    live_pointer :
        (x : File)
        → lookup (tenant, func) d.tenants ≡ some x
        → valid_name func ≡ true
        → after.tenants ≡ (sweep_tenants listing.list_tenants d.now grace d.tenants).0
        → read_pointer after tenant func ≡ ok (some digest)
    live_pointer x there vf tenants =
        read_pointer-same d after tenant func (
          ap (lookup (tenant, func)) tenants
          ∙ sweep_tenants-stays listing.list_tenants d.now grace (tenant, func) x d.tenants there
              (is_temp-valid_name func vf)
          ∙ sym there)
        ∙ live

    live_source :
        (digests : List Bytes)
        → is_valid_digest digest ≡ true
        → contains digests digest ≡ true
        → after.wasm
          ≡ (delete_pass listing.list_wasm (wasm_collectible digests) d.now grace d.wasm).0
        → lookup (wasm_name digest) after.wasm ≡ lookup (wasm_name digest) d.wasm
    live_source digests vd known wasm =
        ap (lookup (wasm_name digest)) wasm
        ∙ delete_pass-same listing.list_wasm (wasm_collectible digests) d.now grace
            (wasm_name digest) d.wasm (is_temp-wasm_name digest vd)
            ((wasm_collectible-name digests digest ∙ ap not known))

    live_cwasm :
        (digests : List Bytes)
        → is_valid_digest digest ≡ true
        → contains digests digest ≡ true
        → (after.cwasm ≡ d.cwasm)
          ⊎ (after.cwasm
              ≡ (delete_pass listing.list_cwasm
                  (cwasm_collectible w.compat_hash digests)
                  d.now
                  grace
                  d.cwasm).0)
        → lookup (cache_file_name w digest) after.cwasm ≡ lookup (cache_file_name w digest) d.cwasm
    live_cwasm digests vd known (inl same) = ap (lookup (cache_file_name w digest)) same
    live_cwasm digests vd known (inr pass) =
        ap (lookup (cache_file_name w digest)) pass
        ∙ delete_pass-same listing.list_cwasm (cwasm_collectible w.compat_hash digests) d.now grace
            (cache_file_name w digest) d.cwasm (is_temp-cache_file_name w digest vd)
            ((cwasm_collectible-name w w.compat_hash digests digest vd
              ∙ ap (λ b. not b || not (bytes_beq w.compat_hash w.compat_hash)) known
              ∙ ap not ((bytes_beq_iff w.compat_hash w.compat_hash).1 refl)))

-- A file of `wasm/` and a file of `cwasm/` that are younger than the grace period are left alone,
-- whatever they are called and whether or not a pointer refers to them.
pub gc-keeps_fresh :
    (w : Wasmtime) (listing : Listing) (grace : ℕ) (d : Disk) (name cname : Bytes) (f g : File)
    → d.now - f.mtime < grace
    → d.now - g.mtime < grace
    → lookup name d.wasm ≡ some f
    → lookup cname d.cwasm ≡ some g
    → let after = (gc_unreferenced_blobs w listing grace d).0 in
      (lookup name after.wasm ≡ some f) × (lookup cname after.cwasm ≡ some g)
gc-keeps_fresh w listing grace d name cname f g young young' h h' =
    elim (Result-cases (referenced listing d)) [
      | inr (i, r) ↦ rw (gc-stopped w listing grace d i r) (h, h')
      | inl (digests, r) ↦
          let (tenants, wasm, cwasm) = gc-parts w listing grace d digests r in
          let kept = λ (c : Bytes → Bool). too_young c d.now grace name f young in
          let kept' = λ (c : Bytes → Bool). too_young c d.now grace cname g young' in
          (
            (ap (lookup name) wasm
                ∙ delete_pass-stays listing.list_wasm (wasm_collectible digests) d.now grace name f
                    d.wasm h (kept is_temp) (kept (wasm_collectible digests))),
            (elim cwasm [
              | inl same ↦ ap (lookup cname) same ∙ h'
              | inr pass ↦
                  ap (lookup cname) pass
                  ∙ delete_pass-stays listing.list_cwasm (cwasm_collectible w.compat_hash digests)
                      d.now grace cname g d.cwasm h' (kept' is_temp)
                      (kept' (cwasm_collectible w.compat_hash digests))
            ]),
          )
    ]

-- After a collection that could read every pointer, a source in a `wasm/` directory that was listed
-- belongs to a referenced digest, is younger than the grace period, or cannot be removed.
pub gc-clears :
    (w : Wasmtime) (listing : Listing) (grace : ℕ) (d : Disk) (digest : Bytes)
    (digests : List Bytes) (f : File)
    → listing.list_wasm ≡ ok tt
    → referenced listing d ≡ ok digests
    → lookup (wasm_name digest) (gc_unreferenced_blobs w listing grace d).0.wasm ≡ some f
    → (contains digests digest ≡ true) ⊎ (d.now - f.mtime < grace) ⊎ (f.removable ≡ false)
gc-clears w listing grace d digest digests f e r there =
    let (tenants, wasm, cwasm) = gc-parts w listing grace d digests r in
    let pass = ap (λ l. (delete_pass l (wasm_collectible digests) d.now grace d.wasm).0) e in
    let stayed =
      delete_pass-clears (wasm_collectible digests) d.now grace (wasm_name digest) f d.wasm
        (ap (lookup (wasm_name digest)) (sym (wasm ∙ pass)) ∙ there) in
    spared (contains digests digest) d.now grace f (
      sym (
        ap (λ b. b && (older_than d.now grace f && f.removable))
          (wasm_collectible-name digests digest))
      ∙ stayed)
