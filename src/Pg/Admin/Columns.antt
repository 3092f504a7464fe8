-- ===== src/Pg/Admin/Columns.antt =====
-- Limits that fit the columns of `warpline.tenants`, as the validation of crates/core/src/types.rs
-- leaves them for crates/core/src/pg/admin.rs.
use warpline.Base.{
  ℕ, ◌≤◌, ◌≡◌, refl, inl, inr, Bool, true, false, if◌then◌else◌, List, [], ◌∷◌, Option, none, some,
  arith, Bool-cases, All, ℤ, pos, negsuc, in_range, Bytes, bytes_beq, bytes_eq, pair_eq, lookup,
}
use warpline.Types.Limits.{Limits, InRange}
use warpline.Pg.Schema.{Uuid, TenantRow, Database, checks}
use warpline.Pg.Admin.{LimitsPatch, is_some, cols, upserted, updated}
use warpline.Pg.Admin.Rows.{cols-InRange}

-- A number between two bounds.
abbrev pub Within : ℕ → ℕ → ℤ → Type 0
Within low high (pos n) = (low ≤ n) × (n ≤ high)
Within low high (negsuc k) = ⊥

-- 1 to 10000 ms of CPU time, and 1 to 512 MiB of memory.
pub record InColumns (t : TenantRow) : Type 0 where
  pub cpu : Within 1 10000 t.cpu_budget_ms
  pub mem : Within 1048576 536870912 t.mem_cap_bytes

Within-in_range : (low high : ℕ) (v : ℤ) → Within low high v → in_range low high v ≡ true
Within-in_range low high (pos n) w = ground arith
Within-in_range low high (negsuc k) w = absurd w

pub InColumns-checks : (t : TenantRow) → InColumns t → checks t ≡ true
unfolding checks
InColumns-checks t c =
    rw (Within-in_range 1 10000 t.cpu_budget_ms c.cpu)
      (Within-in_range 1048576 536870912 t.mem_cap_bytes c.mem)

lookup-All :
    (P : TenantRow → Type 0) (name : Bytes) (l : List (Bytes × TenantRow)) (t : TenantRow)
    → All (λ e. P e.1) l
    → lookup name l ≡ some t
    → P t
unfolding lookup
lookup-All P name [] t h e = absurd (ground arith)
lookup-All P name ((j, u) ∷ l) t h e = elim (Bool-cases (bytes_beq j name)) [
  | inl same ↦ let eq : t ≡ u = ground arith in rw eq h.0
  | inr other ↦ lookup-All P name l t h.1 (rw other at e)
]

cols-Within :
    (l : Limits) → InRange l → Within 1 10000 (cols l).1 × Within 1048576 536870912 (cols l).2
cols-Within l r =
    let (hosts, cpu, mem) = cols-InRange l r in
    (rw cpu (r.cpu_low, r.cpu_high), rw mem (r.mem_low, r.mem_high))

either : (P : ℤ → Type 0) (b : Bool) (x y : ℤ) → P x → P y → P (if b then x else y)
either P true x y p q = p
either P false x y p q = q

-- Validated limits, merged into a row in range or into none, make a row in range.
pub upserted-InColumns :
    (new_id : Uuid) (patch : LimitsPatch) (l : Limits) (name : Bytes) (d : Database)
    → InRange l
    → All (λ e. InColumns e.1) d.tenants
    → InColumns (upserted new_id patch l (lookup name d.tenants))
unfolding upserted
upserted-InColumns new_id patch l name d r s = go (lookup name d.tenants) refl
  where
    go :
        (old : Option TenantRow)
        → lookup name d.tenants ≡ old
        → InColumns (upserted new_id patch l old)
    go none e = let (c, m) = cols-Within l r in record { cpu = c; mem = m }
    go (some t) e =
        let (c, m) = cols-Within l r in
        let o = lookup-All InColumns name d.tenants t s e in
        record {
          cpu =
              either (Within 1 10000) (is_some patch.cpu_budget_ms) (cols l).1 t.cpu_budget_ms c
                o.cpu;
          mem =
              either (Within 1048576 536870912) (is_some patch.mem_cap_bytes) (cols l).2
                t.mem_cap_bytes m o.mem;
        }

pub updated-InColumns : (l : Limits) (row : TenantRow) → InRange l → InColumns (updated l row)
unfolding updated
updated-InColumns l row r = let (c, m) = cols-Within l r in record { cpu = c; mem = m }
