-- ===== src/Registry/Gc/Referenced.antt =====
-- The first pass of the collection in crates/core/src/registry.rs, and the passes it leads to.
use warpline.Base.{
  ℕ, ◌≡◌, refl, sym, ap, ◌∙◌, ◌⊎◌, inl, inr, true, false, List, [], ◌∷◌, some, arith, Bool-cases,
  Option-cases, Result, ok, err, Result-cases, Bytes, bytes_beq_iff, bytes_eq, pair_beq,
  pair_beq_iff, pair_eq, lookup,
}
use warpline.Types.Names.{is_valid_digest, valid_name}
use warpline.Registry.Disk.{File, Disk, IoError, not_found, failed, read_file}
use warpline.Registry.Pointer.{Error, io, trim, pointer_path, parse_pointer, read_pointer}
use warpline.Registry.Wasmtime.{Wasmtime}
use warpline.Registry.Gc.{
  is_temp, add_reference, references, Listing, referenced, delete_pass, sweep_tenants, contains,
  wasm_collectible, cwasm_collectible, delete_cwasm, delete_blobs, gc_unreferenced_blobs,
}

-- The file behind a pointer that resolves.
pub read_pointer-file :
    (d : Disk) (t f digest : Bytes)
    → read_pointer d t f ≡ ok (some digest)
    → (valid_name f ≡ true)
      × (is_valid_digest digest ≡ true)
      × ((x : File) × (lookup (t, f) d.tenants ≡ some x)
          × ((c : Bytes) × (read_file (some x) ≡ ok c) × (trim c ≡ digest)))
unfolding read_pointer pointer_path parse_pointer read_file
read_pointer-file d t f digest h = elim (Bool-cases (valid_name t)) [
  | inr bad ↦ absurd (ground arith)
  | inl vt ↦ elim (Bool-cases (valid_name f)) [
    | inr bad ↦ absurd (ground arith)
    | inl vf ↦ elim (Option-cases (lookup (t, f) d.tenants)) [
      | inl absent ↦ absurd (ground arith)
      | inr (x, there) ↦ elim (Bool-cases x.readable) [
        | inr shut ↦ absurd (ground arith)
        | inl opens ↦ elim (Bool-cases (is_valid_digest (trim x.contents))) [
          | inr bad ↦ absurd (ground arith)
          | inl good ↦
              let same : trim x.contents ≡ digest = ground arith in
              (vf, rw (← same) good, (x, there, (x.contents, rw opens refl, same)))
        ]
      ]
    ]
  ]
]

references-temp :
    (q : Bytes × Bytes) (g : File) (l : List ((Bytes × Bytes) × File))
    → is_temp q.1 ≡ true
    → references ((q, g) ∷ l) ≡ references l
unfolding references
references-temp q g l t = rw (references, t) refl

references-file :
    (q : Bytes × Bytes) (g : File) (l : List ((Bytes × Bytes) × File))
    → is_temp q.1 ≡ false
    → references ((q, g) ∷ l) ≡ add_reference (read_file (some g)) (references l)
unfolding references add_reference
references-file q g l t = rw (references, t) refl

add_reference-failed :
    (r : Result IoError Bytes) → add_reference r (err (io failed)) ≡ err (io failed)
unfolding add_reference
add_reference-failed (ok c) = refl
add_reference-failed (err not_found) = refl
add_reference-failed (err failed) = refl

-- What is referred to afterwards: all that was, and the digest that was read.
add_reference-ok :
    (r : Result IoError Bytes) (rest : Result Error (List Bytes)) (digests : List Bytes)
    → add_reference r rest ≡ ok digests
    → (before : List Bytes) × (rest ≡ ok before)
      × ((s : Bytes) → contains before s ≡ true → contains digests s ≡ true)
      × ((c : Bytes)
          → r ≡ ok c
          → is_valid_digest (trim c) ≡ true
          → contains digests (trim c) ≡ true)
unfolding add_reference
add_reference-ok (err not_found) (ok before) digests h =
    let same : before ≡ digests = ground arith in
    (before, refl, (λ s t. rw (← same) t), (λ c e v. absurd (ground arith)))
add_reference-ok (err not_found) (err e) digests h = absurd (ground arith)
add_reference-ok (err failed) rest digests h = absurd (ground arith)
add_reference-ok (ok c) (err e) digests h = absurd (ground arith)
add_reference-ok (ok c) (ok before) digests h = elim (Bool-cases (is_valid_digest (trim c))) [
  | inl good ↦
      let same : trim c ∷ before ≡ digests = ground arith in
      (
        before,
        refl,
        (λ s t. rw (← same) (ground arith)),
        (λ b e v.
            let cb : c ≡ b = ground arith in
            rw (← same, ← cb) (ground (arith, bytes_beq_iff (trim c) (trim c)))),
      )
  | inr bad ↦
      let same : before ≡ digests = ground arith in
      (
        before,
        refl,
        (λ s t. rw (← same) t),
        (λ b e v.
            let cb : c ≡ b = ground arith in
            absurd (ground (arith, ap (λ x. is_valid_digest (trim x)) cb))),
      )
]

-- A pointer that cannot be read stops the first pass.
pub references-unreadable :
    (l : List ((Bytes × Bytes) × File)) (p : Bytes × Bytes) (x : File)
    → lookup p l ≡ some x
    → is_temp p.1 ≡ false
    → read_file (some x) ≡ err failed
    → references l ≡ err (io failed)
unfolding lookup add_reference
references-unreadable [] p x h t u = absurd (ground arith)
references-unreadable ((q, g) ∷ l) p x h t u = elim (Bool-cases (is_temp q.1)) [
  | inl temp ↦ elim (Bool-cases (pair_beq q p)) [
    | inl same ↦
        let qp = ap (λ (y : Bytes × Bytes). is_temp y.1) ((pair_beq_iff q p).0 same) in
        absurd (ground arith)
    | inr other ↦
        references-temp q g l temp ∙ references-unreadable l p x (sym (rw other refl) ∙ h) t u
  ]
  | inr file ↦ references-file q g l file ∙ elim (Bool-cases (pair_beq q p)) [
    | inl same ↦ let gx : some g ≡ some x = sym (rw same refl) ∙ h in rw (gx, u) refl
    | inr other ↦
        rw (references-unreadable l p x (sym (rw other refl) ∙ h) t u)
          (add_reference-failed (read_file (some g)))
  ]
]

-- The first pass finds the digest of every pointer that resolves.
pub references-contains :
    (l : List ((Bytes × Bytes) × File)) (p : Bytes × Bytes) (x : File) (c : Bytes)
    (digests : List Bytes)
    → lookup p l ≡ some x
    → is_temp p.1 ≡ false
    → read_file (some x) ≡ ok c
    → is_valid_digest (trim c) ≡ true
    → references l ≡ ok digests
    → contains digests (trim c) ≡ true
unfolding lookup
references-contains [] p x c digests h t u v r = absurd (ground arith)
references-contains ((q, g) ∷ l) p x c digests h t u v r = elim (Bool-cases (is_temp q.1)) [
  | inl temp ↦ elim (Bool-cases (pair_beq q p)) [
    | inl same ↦
        let qp = ap (λ (y : Bytes × Bytes). is_temp y.1) ((pair_beq_iff q p).0 same) in
        absurd (ground arith)
    | inr other ↦
        references-contains l p x c digests (sym (rw other refl) ∙ h) t u v
          (sym (references-temp q g l temp) ∙ r)
  ]
  | inr file ↦
      let (before, rest, grows, reads) =
        add_reference-ok (read_file (some g)) (references l) digests
          (sym (references-file q g l file) ∙ r) in
      elim (Bool-cases (pair_beq q p)) [
        | inl same ↦
            let gx : some g ≡ some x = sym (rw same refl) ∙ h in reads c (ap read_file gx ∙ u) v
        | inr other ↦
            grows (trim c) (references-contains l p x c before (sym (rw other refl) ∙ h) t u v rest)
      ]
]

-- The disk that a collection leaves, directory by directory, once the pointers are known.
pub gc-parts :
    (w : Wasmtime) (listing : Listing) (grace : ℕ) (d : Disk) (digests : List Bytes)
    → referenced listing d ≡ ok digests
    → let after = (gc_unreferenced_blobs w listing grace d).0 in
      (after.tenants ≡ (sweep_tenants listing.list_tenants d.now grace d.tenants).0)
      × (after.wasm
          ≡ (delete_pass listing.list_wasm (wasm_collectible digests) d.now grace d.wasm).0)
      × ((after.cwasm ≡ d.cwasm)
          ⊎ (after.cwasm
              ≡ (delete_pass listing.list_cwasm
                  (cwasm_collectible w.compat_hash digests)
                  d.now
                  grace
                  d.cwasm).0))
unfolding gc_unreferenced_blobs delete_blobs delete_cwasm
gc-parts w listing grace d digests r =
    rw (gc_unreferenced_blobs, r)
      (elim (Result-cases
        (delete_pass listing.list_wasm (wasm_collectible digests) d.now grace d.wasm).1) [
          | inl (n, e) ↦ rw (e, delete_blobs) (refl, refl, inr refl)
          | inr (i, e) ↦ rw (e, delete_blobs) (refl, refl, inl refl)
        ])
