-- ===== src/Registry/Disk.antt =====
-- The directory `modules_dir` of crates/core/src/registry.rs as the standard library's file calls
-- see it: `wasm/` and `cwasm/` hold files by name, `tenants/` holds a directory of files for each
-- tenant. Time is in the unit of the grace period.
use warpline.Base.{
  ℕ, Bool, true, List, Option, none, some, if◌then◌else◌, Result, ok, err, Bytes, bytes_eq, pair_eq,
}

pub record File : Type 0 where
  pub contents : Bytes
  pub mtime : ℕ
  -- Reading the file, opening it for writing, or removing it may be refused by the system.
  pub readable : Bool
  pub writable : Bool
  pub removable : Bool

pub record Disk : Type 0 where
  pub wasm : List (Bytes × File)
  pub cwasm : List (Bytes × File)
  -- Files under `tenants/`, by tenant and name.
  pub tenants : List ((Bytes × Bytes) × File)
  pub now : ℕ

-- A file that `atomic_write` publishes: readable by all, owned by the writer.
unfoldable pub published : ℕ → Bytes → File
published now bytes = record {
  contents = bytes;
  mtime = now;
  readable = true;
  writable = true;
  removable = true;
}

-- `std::io::Error`, as the callers tell its kinds apart.
pub data IoError : Type 0 where
  not_found failed : IoError

-- `std::fs::read`.
unfoldable pub read_file : Option File → Result IoError Bytes
read_file none = err not_found
read_file (some f) = if f.readable then ok f.contents else err failed

-- `registry::touch`: the file with a new time of modification.
unfoldable pub touch : ℕ → Option File → Result IoError File
touch now none = err not_found
touch now (some f) = if f.writable then ok (record f { mtime = now }) else err failed

-- `std::fs::remove_file`: whether the file goes.
unfoldable pub remove_file : Option File → Result IoError (Unit {0})
remove_file none = err not_found
remove_file (some f) = if f.removable then ok tt else err failed
