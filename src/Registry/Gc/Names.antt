-- ===== src/Registry/Gc/Names.antt =====
-- How the collection in crates/core/src/registry.rs reads the names of a digest's own files.
use warpline.Base.{
  ◌-◌, ◌≡◌, refl, sym, ap, true, false, not, ◌||◌, List, [], ◌∷◌, ◌++◌, some, arith, ◌==◌, length,
  take, length-append, all, Bytes, bytes_beq, bytes_beq_iff, bytes_eq, pair_eq,
}
use warpline.Base.Text.{codes}
use warpline.Types.Names.{is_valid_digest, is_hex, valid_name, is_head}
use warpline.Registry.Pointer.{wasm_name}
use warpline.Registry.Wasmtime.{Wasmtime}
use warpline.Registry.Blobs.{cache_file_name}
use warpline.Registry.Gc.{
  starts_with, strip_suffix, split_once, is_temp, wasm_collectible, cwasm_collectible, contains,
}

append_assoc : (a b d : Bytes) → (a ++ b) ++ d ≡ a ++ (b ++ d)
append_assoc [] b d = refl
append_assoc (x ∷ a) b d = ap (◌∷◌ x) (append_assoc a b d)

take-append : (a b : Bytes) → take (length a) (a ++ b) ≡ a
take-append [] b = refl
take-append (x ∷ a) b = ap (◌∷◌ x) (take-append a b)

-- A suffix that was put on comes off.
strip_suffix-append : (suffix s : Bytes) → strip_suffix suffix (s ++ suffix) ≡ some s
unfolding strip_suffix
strip_suffix-append suffix s =
    let n : length (s ++ suffix) - length suffix ≡ length s =
      omega (arith, length-append s suffix) in
    let t : take (length (s ++ suffix) - length suffix) (s ++ suffix) ≡ s =
      rw n (take-append s suffix) in
    let same : bytes_beq (s ++ suffix) (s ++ suffix) ≡ true =
      (bytes_beq_iff (s ++ suffix) (s ++ suffix)).1 refl in
    rw (t, same) refl

-- Hexadecimal digits hold no dash, so the split is at the one after them.
split_once-hex :
    (s rest : Bytes) → all is_hex s ≡ true → split_once (s ++ (codes "-" ++ rest)) ≡ some (s, rest)
unfolding split_once is_hex
split_once-hex [] rest h = refl
split_once-hex (b ∷ s) rest h =
    let other : (b == 45) ≡ false = ground arith in
    rw (split_once, other, split_once-hex s rest (ground arith)) refl

digest-all_hex : (s : Bytes) → is_valid_digest s ≡ true → all is_hex s ≡ true
unfolding is_valid_digest
digest-all_hex s h = ground arith

-- Nothing that starts with a digest is named like a temporary file.
pub is_temp-digest : (s rest : Bytes) → is_valid_digest s ≡ true → is_temp (s ++ rest) ≡ false
unfolding is_valid_digest starts_with is_hex
is_temp-digest [] rest h = absurd (ground arith)
is_temp-digest (b ∷ s) rest h = ground arith

-- Nor is a pointer file.
pub is_temp-valid_name : (s : Bytes) → valid_name s ≡ true → is_temp s ≡ false
unfolding valid_name starts_with is_head
is_temp-valid_name [] h = absurd (ground arith)
is_temp-valid_name (b ∷ s) h = ground arith

pub wasm_collectible-name :
    (digests : List Bytes) (digest : Bytes)
    → wasm_collectible digests (wasm_name digest) ≡ not (contains digests digest)
unfolding wasm_collectible wasm_name
wasm_collectible-name digests digest =
    rw (wasm_collectible, strip_suffix-append (codes ".wasm") digest) refl

pub cwasm_collectible-name :
    (w : Wasmtime) (compat : Bytes) (digests : List Bytes) (digest : Bytes)
    → is_valid_digest digest ≡ true
    → cwasm_collectible compat digests (cache_file_name w digest)
      ≡ (not (contains digests digest) || not (bytes_beq w.compat_hash compat))
unfolding cwasm_collectible cache_file_name
cwasm_collectible-name w compat digests digest v =
    let assoc : digest ++ (codes "-" ++ (w.compat_hash ++ codes ".cwasm"))
        ≡ (digest ++ (codes "-" ++ w.compat_hash)) ++ codes ".cwasm" =
      sym (append_assoc digest (codes "-" ++ w.compat_hash) (codes ".cwasm")) in
    rw
      (
        assoc,
        cwasm_collectible,
        strip_suffix-append (codes ".cwasm") (digest ++ (codes "-" ++ w.compat_hash)),
        split_once-hex digest w.compat_hash (digest-all_hex digest v),
      )
      refl

pub is_temp-wasm_name : (s : Bytes) → is_valid_digest s ≡ true → is_temp (wasm_name s) ≡ false
unfolding wasm_name
is_temp-wasm_name s v = is_temp-digest s (codes ".wasm") v

pub is_temp-cache_file_name :
    (w : Wasmtime) (s : Bytes) → is_valid_digest s ≡ true → is_temp (cache_file_name w s) ≡ false
unfolding cache_file_name
is_temp-cache_file_name w s v = is_temp-digest s (codes "-" ++ (w.compat_hash ++ codes ".cwasm")) v
