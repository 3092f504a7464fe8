-- ===== src/Registry/Pointer/Laws.antt =====
-- Pointer files of crates/core/src/registry.rs: what is written is what is read.
use warpline.Base.{
  ℕ, ◌≡◌, refl, sym, ap, ◌∙◌, ◌⊎◌, inl, inr, true, false, [], ◌∷◌, none, some, arith, if◌then◌else◌,
  Bool-cases, Option-cases, all, ok, err, Result-cases, Bytes, bytes_eq, pair_beq, pair_beq_iff,
  pair_eq, lookup, remove, lookup-insert, lookup-remove,
}
use warpline.Types.Names.{valid_name, is_valid_digest, is_hex}
use warpline.Base.Trim.{starts_clean, ends_clean, trim_end_of_clean, trim_start-append}
use warpline.Types.Bearer.{is_whitespace}
use warpline.Registry.Disk.{File, Disk, published, IoError, failed, read_file, remove_file}
use warpline.Registry.Pointer.{
  Error, io, bad_digest, bad_name, Io, pointer_path, write_pointer, write_at, removed,
  remove_pointer, trim, parse_pointer, read_pointer,
}

hex-clean : (b : ℕ) → is_hex b ≡ true → is_whitespace b ≡ false
unfolding is_hex is_whitespace
hex-clean b h = ground arith

hex-starts : (s : Bytes) → all is_hex s ≡ true → starts_clean is_whitespace s ≡ true
hex-starts [] h = refl
hex-starts (b ∷ s) h = ground (arith, hex-clean b)

hex-ends : (s : Bytes) → all is_hex s ≡ true → ends_clean is_whitespace s ≡ true
hex-ends [] h = refl
hex-ends (b ∷ []) h = ground (arith, hex-clean b)
hex-ends (b ∷ c ∷ s) h = ground (arith, hex-ends (c ∷ s))

-- A digest has no white space to trim.
pub trim-digest : (s : Bytes) → is_valid_digest s ≡ true → trim s ≡ s
unfolding is_valid_digest
trim-digest s h =
    let hex : all is_hex s ≡ true = ground arith in
    rw (trim_start-append is_whitespace [] s refl (hex-starts s hex))
      (trim_end_of_clean is_whitespace s (hex-ends s hex))

-- What a pointer written over another reads as.
read-write_at :
    (d : Disk) (p q : Bytes × Bytes) (digest : Bytes)
    → is_valid_digest digest ≡ true
    → parse_pointer (read_file (lookup q (write_at d p digest).tenants))
      ≡ (if pair_beq p q then ok (some digest) else parse_pointer (read_file (lookup q d.tenants)))
unfolding write_at published read_file parse_pointer
read-write_at d p q digest v = elim (Bool-cases (pair_beq p q)) [
  | inl same ↦
      rw (lookup-insert p q (published d.now digest) d.tenants, same, trim-digest digest v, v) refl
  | inr other ↦ rw (lookup-insert p q (published d.now digest) d.tenants, other) refl
]

-- A write that succeeds had a valid digest and valid names, and is the write.
write_pointer-ok :
    (sys : Io) (d : Disk) (tenant func digest : Bytes)
    → (write_pointer sys d tenant func digest).1 ≡ ok tt
    → (is_valid_digest digest ≡ true)
      × (pointer_path tenant func ≡ some (tenant, func))
      × ((write_pointer sys d tenant func digest).0 ≡ write_at d (tenant, func) digest)
unfolding write_pointer pointer_path
write_pointer-ok sys d tenant func digest h = ground arith

same-path :
    (tenant func t f : Bytes)
    → pair_beq (tenant, func) (t, f) ≡ true
    → pointer_path t f ≡ pointer_path tenant func
same-path tenant func t f same =
    let e = (pair_beq_iff (tenant, func) (t, f)).0 same in
    ap (λ (p : Bytes × Bytes). pointer_path p.0 p.1) (sym e)

path_self : (t f : Bytes) (q : Bytes × Bytes) → pointer_path t f ≡ some q → q ≡ (t, f)
unfolding pointer_path
path_self t f q e = ground arith

-- What a change of the tenants' files does to a read under an existing path, and to no other.
read-at :
    (d : Disk) (t f : Bytes) (q : Bytes × Bytes)
    → pointer_path t f ≡ some q
    → read_pointer d t f ≡ parse_pointer (read_file (lookup q d.tenants))
unfolding read_pointer
read-at d t f q e = rw (e, read_pointer) refl

read-nowhere : (d : Disk) (t f : Bytes) → pointer_path t f ≡ none → read_pointer d t f ≡ ok none
unfolding read_pointer
read-nowhere d t f e = rw (e, read_pointer) refl

read-write_other :
    (d : Disk) (p : Bytes × Bytes) (digest t f : Bytes)
    → is_valid_digest digest ≡ true
    → pair_beq p (t, f) ≡ false
    → read_pointer (write_at d p digest) t f ≡ read_pointer d t f
read-write_other d p digest t f v other = elim (Option-cases (pointer_path t f)) [
  | inl invalid ↦ read-nowhere (write_at d p digest) t f invalid ∙ sym (read-nowhere d t f invalid)
  | inr (q, e) ↦
      let apart : pair_beq p q ≡ false = rw (path_self t f q e) other in
      read-at (write_at d p digest) t f q e
      ∙ rw (read-write_at d p q digest v, apart) (sym (read-at d t f q e))
]

-- After a pointer is written, its tenant and function resolve to the digest that was given, and
-- every other pair, valid or not, resolves to what it did before.
pub read-write_pointer :
    (sys : Io) (d : Disk) (tenant func digest t f : Bytes)
    → (write_pointer sys d tenant func digest).1 ≡ ok tt
    → read_pointer (write_pointer sys d tenant func digest).0 t f
      ≡ (if pair_beq (tenant, func) (t, f) then ok (some digest) else read_pointer d t f)
read-write_pointer sys d tenant func digest t f h =
    let (v, path, done) = write_pointer-ok sys d tenant func digest h in
    let p : Bytes × Bytes = (tenant, func) in
    rw done (elim (Bool-cases (pair_beq (tenant, func) (t, f))) [
      | inl same ↦
          let self = (pair_beq_iff p p).1 refl in
          rw same (
            read-at (write_at d p digest) t f p (same-path tenant func t f same ∙ path)
            ∙ rw (read-write_at d p p digest v, self) refl)
      | inr other ↦ rw other (read-write_other d p digest t f v other)
    ])

-- A pointer is written only under valid names, with a valid digest and if the system lets the file
-- be published; every other call fails and leaves the disk as it was.
pub write_pointer_cases :
    (sys : Io) (d : Disk) (tenant func digest : Bytes)
    → ((valid_name tenant ≡ true)
        × (valid_name func ≡ true)
        × (is_valid_digest digest ≡ true)
        × (sys ≡ ok tt)
        × (write_pointer sys d tenant func digest ≡ (write_at d (tenant, func) digest, ok tt)))
      ⊎ ((e : Error) × (write_pointer sys d tenant func digest ≡ (d, err e))
          × ((valid_name tenant ≡ false)
              ⊎ (valid_name func ≡ false)
              ⊎ (is_valid_digest digest ≡ false)
              ⊎ ((i : IoError) × (sys ≡ err i))))
unfolding write_pointer pointer_path
write_pointer_cases sys d tenant func digest = elim (Bool-cases (is_valid_digest digest)) [
  | inr bad ↦ inr (bad_digest, rw bad refl, inr (inr (inl bad)))
  | inl good ↦ elim (Bool-cases (valid_name tenant)) [
    | inr bad ↦ inr (bad_name, rw (good, bad) refl, inl bad)
    | inl nt ↦ elim (Bool-cases (valid_name func)) [
      | inr bad ↦ inr (bad_name, rw (good, nt, bad) refl, inr (inl bad))
      | inl nf ↦ elim (Result-cases sys) [
        | inl (t, e) ↦ inl (nt, nf, good, e, rw (good, nt, nf, e) refl)
        | inr (i, e) ↦ inr (io i, rw (good, nt, nf, e) refl, inr (inr (inr (i, e))))
      ]
    ]
  ]
]

read_absent :
    (d : Disk) (t f : Bytes) → lookup (t, f) d.tenants ≡ none → read_pointer d t f ≡ ok none
unfolding parse_pointer read_file
read_absent d t f e = elim (Option-cases (pointer_path t f)) [
  | inl invalid ↦ read-nowhere d t f invalid
  | inr (q, p) ↦ read-at d t f q p ∙ rw (path_self t f q p, e) refl
]

-- A read under another pair does not see a removal; one under the same pair finds nothing.
read-remove_at :
    (d : Disk) (p : Bytes × Bytes) (t f : Bytes)
    → read_pointer (record d { tenants = remove p d.tenants }) t f
      ≡ (if pair_beq p (t, f) then ok none else read_pointer d t f)
read-remove_at d p t f =
    let d' : Disk = record d { tenants = remove p d.tenants } in
    let gone = lookup-remove p (t, f) d.tenants in
    elim (Bool-cases (pair_beq p (t, f))) [
      | inl same ↦ rw same (read_absent d' t f (gone ∙ rw same refl))
      | inr other ↦ rw other (elim (Option-cases (pointer_path t f)) [
        | inl invalid ↦ read-nowhere d' t f invalid ∙ sym (read-nowhere d t f invalid)
        | inr (q, e) ↦
            let kept : lookup q (remove p d.tenants) ≡ lookup q d.tenants =
              rw (path_self t f q e) (gone ∙ rw other refl) in
            read-at d' t f q e ∙ rw kept (sym (read-at d t f q e))
      ])
    ]

-- Where there is nothing to remove, the pair resolves to nothing already.
nothing_there :
    (d : Disk) (tenant func t f : Bytes)
    → read_pointer d tenant func ≡ ok none
    → read_pointer d t f ≡ (if pair_beq (tenant, func) (t, f) then ok none else read_pointer d t f)
nothing_there d tenant func t f e = elim (Bool-cases (pair_beq (tenant, func) (t, f))) [
  | inl same ↦
      let q = (pair_beq_iff (tenant, func) (t, f)).0 same in
      rw same (ap (λ (p : Bytes × Bytes). read_pointer d p.0 p.1) (sym q) ∙ e)
  | inr other ↦ rw other refl
]

-- After a pointer is removed its tenant and function resolve to nothing, every other pair resolves
-- as before, and only a file that the system does not let go makes the removal fail, which then
-- changes nothing.
pub read-remove_pointer :
    (d : Disk) (tenant func t f : Bytes)
    → let r = remove_pointer d tenant func in
      ((r.1 ≡ ok tt)
        × (read_pointer r.0 t f
            ≡ (if pair_beq (tenant, func) (t, f) then ok none else read_pointer d t f)))
      ⊎ ((r ≡ (d, err (io failed)))
          × ((x : File) × (lookup (tenant, func) d.tenants ≡ some x) × (x.removable ≡ false)))
unfolding remove_pointer removed remove_file
read-remove_pointer d tenant func t f = elim (Option-cases (pointer_path tenant func)) [
  | inl invalid ↦
      rw (invalid, remove_pointer)
        (inl (refl, nothing_there d tenant func t f (read-nowhere d tenant func invalid)))
  | inr (q, e) ↦
      let self = path_self tenant func q e in
      rw (e, self, remove_pointer)
        (elim (Option-cases (lookup (tenant, func) d.tenants)) [
          | inl none_there ↦
              rw (none_there, remove_file)
                (inl (refl, nothing_there d tenant func t f (read_absent d tenant func none_there)))
          | inr (x, there) ↦ elim (Bool-cases x.removable) [
            | inl lets ↦
                rw (there, lets, remove_file) (inl (refl, read-remove_at d (tenant, func) t f))
            | inr held ↦
                let refused : remove_file (lookup (tenant, func) d.tenants) ≡ err failed =
                  rw (there, held) refl in
                rw refused (inr (refl, (x, there, held)))
          ]
        ])
]
