-- ===== src/Examples/Registry.antt =====
-- Tests of crates/core/src/registry.rs and crates/core/src/cache.rs.
use warpline.Base.{
  ◌-◌, ◌<◌, ◌≡◌, refl, ◌∙◌, false, [], ◌∷◌, some, arith, if◌then◌else◌, replicate, ok, err, Bytes,
  bytes_eq, pair_beq, pair_eq, lookup,
}
use warpline.Base.Text.{codes}
use warpline.Base.Trim.{trim_start, trim_end}
use warpline.Types.Bearer.{is_whitespace}
use warpline.Types.Names.{is_valid_digest, valid_name}
use warpline.Registry.Disk.{File, Disk, published, failed, read_file}
use warpline.Registry.Pointer.{io, Io, pointer_path, read_pointer, write_pointer, wasm_name}
use warpline.Registry.Pointer.Laws.{read-write_pointer}
use warpline.Registry.Wasmtime.{Wasmtime}
use warpline.Registry.Blobs.{cache_file_name}
use warpline.Registry.Gc.{
  Listing, is_temp, starts_with, referenced, gc_unreferenced_blobs, delete_blobs, delete_cwasm,
  delete_pass, delete_files, sweep_tenants, wasm_collectible, cwasm_collectible, strip_suffix,
  split_once, older_than,
}
use warpline.Registry.Gc.Safety.{gc-keeps_live, gc-unreadable}

abbrev pub acme : Bytes
acme = codes "acme"

abbrev pub hello : Bytes
hello = codes "hello"

abbrev pub digest_a : Bytes
digest_a = replicate 64 b'a'

abbrev pub digest_b : Bytes
digest_b = replicate 64 b'b'

-- Components are their own bytes.
abbrev pub toy : Wasmtime
toy = record {
  Component = Bytes;
  Pre = Bytes;
  compile = some;
  deserialize = some;
  serialize = some;
  instantiate_pre = some;
  compat_hash = codes "1f";
  digest = λ b. digest_a;
}

abbrev pointer_at : Bytes × Bytes
pointer_at = (acme, hello)

-- One pointer, to a; the sources of a and b, both old.
abbrev pub disk : Disk
disk = record {
  wasm =
      (wasm_name digest_a, published 0 (1 ∷ [])) ∷ (wasm_name digest_b, published 0 (2 ∷ [])) ∷ [];
  cwasm = (codes "x-1f.cwasm", published 4000 (3 ∷ [])) ∷ [];
  tenants = (pointer_at, published 0 digest_a) ∷ [];
  now = 5000;
}

abbrev listing : Listing
listing = record { list_tenants = ok tt; list_wasm = ok tt; list_cwasm = ok tt }

abbrev after : Disk
after = (gc_unreferenced_blobs toy listing 3600 disk).0

live : read_pointer disk acme hello ≡ ok (some digest_a)
unfolding read_pointer pointer_path valid_name read_file lookup published is_valid_digest trim_end
    trim_start is_whitespace
live = refl

gc-keeps_live_example :
    (read_pointer after acme hello ≡ ok (some digest_a))
    × (lookup (wasm_name digest_a) after.wasm ≡ lookup (wasm_name digest_a) disk.wasm)
    × (lookup (cache_file_name toy digest_a) after.cwasm
        ≡ lookup (cache_file_name toy digest_a) disk.cwasm)
gc-keeps_live_example = gc-keeps_live toy listing 3600 disk acme hello digest_a refl live

abbrev locked : File
locked = record (published 0 digest_a) { readable = false }

abbrev locked_disk : Disk
locked_disk = record disk { tenants = (pointer_at, locked) ∷ [] }

locked_there : lookup pointer_at locked_disk.tenants ≡ some locked
unfolding lookup
locked_there = refl

not_temp : is_temp hello ≡ false
unfolding starts_with
not_temp = refl

gc-unreadable_example :
    gc_unreferenced_blobs toy listing 3600 locked_disk ≡ (locked_disk, err (io failed))
gc-unreadable_example =
    gc-unreadable toy listing 3600 locked_disk pointer_at locked refl locked_there not_temp refl

abbrev fresh_disk : Disk
fresh_disk = record disk { wasm = (wasm_name digest_b, published 4000 (2 ∷ [])) ∷ [] }

fresh_there :
    (lookup (wasm_name digest_b) fresh_disk.wasm ≡ some (published 4000 (2 ∷ [])))
    × (lookup (codes "x-1f.cwasm") fresh_disk.cwasm ≡ some (published 4000 (3 ∷ [])))
unfolding lookup wasm_name
fresh_there = (refl, refl)

young : (bytes : Bytes) → 5000 - (published 4000 bytes).mtime < 3600
unfolding published
young bytes = omega arith

known : referenced listing disk ≡ ok (digest_a ∷ [])
unfolding referenced starts_with read_file published is_valid_digest trim_end trim_start
    is_whitespace
known = refl

a_there : lookup (wasm_name digest_a) disk.wasm ≡ some (published 0 (1 ∷ []))
unfolding lookup wasm_name
a_there = refl

kept_a : lookup (wasm_name digest_a) after.wasm ≡ some (published 0 (1 ∷ []))
kept_a = (gc-keeps_live toy listing 3600 disk acme hello digest_a refl live).1 ∙ a_there

counted : (gc_unreferenced_blobs toy listing 3600 disk).1 ≡ ok 1
unfolding gc_unreferenced_blobs referenced starts_with read_file published delete_blobs delete_pass
    delete_cwasm sweep_tenants delete_files wasm_name wasm_collectible strip_suffix is_valid_digest
    trim_end trim_start is_whitespace split_once cwasm_collectible older_than
counted = refl

abbrev pub works : Io
works = ok tt

written : (write_pointer works disk acme hello digest_b).1 ≡ ok tt
unfolding write_pointer is_valid_digest pointer_path valid_name
written = refl

read-write_pointer_example :
    read_pointer (write_pointer works disk acme hello digest_b).0 acme hello ≡ (
      if pair_beq (acme, hello) (acme, hello)
      then ok (some digest_b)
      else read_pointer disk acme hello)
read-write_pointer_example = read-write_pointer works disk acme hello digest_b acme hello written
