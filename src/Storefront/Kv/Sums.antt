-- ===== src/Storefront/Kv/Sums.antt =====
-- The sums of `PgKv::put` of examples/storefront/app/src/kv.rs against the charges of the store in
-- memory.
use warpline.Base.{
  ℕ, ◌+◌, ◌-◌, ◌^◌, ◌<◌, ◌≡◌, refl, ap, inl, inr, [], ◌∷◌, none, arith, ltb, Bool-cases, length,
  Bytes, bytes_eq, pair_beq, pair_beq_iff, pair_eq, lookup, insert, weigh,
}
use warpline.Base.Keyed.{Keyed}
use warpline.Kv.MemKv.{cost, cost_or_zero}
use warpline.Kv.MemKv.Quota.{charge, Fits, cost_lem}
use warpline.Storefront.Kv.{HookKv, row_bytes, used_by, old_of, pg_cost, above_cap}

abbrev pub AllFit : HookKv → Type 0
AllFit [] = Unit
AllFit (((t, k), v) ∷ l) = Fits k v × AllFit l

pub used_by-weigh :
    (tenant : Bytes) (l : HookKv) → AllFit l → used_by tenant l ≡ weigh (charge tenant) l
unfolding used_by row_bytes weigh
used_by-weigh tenant [] f = refl
used_by-weigh tenant (((t, k), v) ∷ l) f =
    ground (arith, used_by-weigh tenant l f.1, cost_lem k v f.0)

old_of-absent :
    (tenant key : Bytes) (l : HookKv) → lookup (tenant, key) l ≡ none → old_of tenant key l ≡ 0
unfolding old_of lookup
old_of-absent tenant key [] h = refl
old_of-absent tenant key (((t, k), v) ∷ l) h = ground (arith, old_of-absent tenant key l)

pub old_of-lookup :
    (tenant key : Bytes) (l : HookKv)
    → Keyed l
    → AllFit l
    → old_of tenant key l ≡ cost_or_zero key (lookup (tenant, key) l)
unfolding old_of row_bytes lookup
old_of-lookup tenant key [] d f = refl
old_of-lookup tenant key (((t, k), v) ∷ l) d f = elim (Bool-cases (pair_beq (t, k) (tenant, key))) [
  | inl here ↦
      let same : ◌≡◌ {A = Bytes × Bytes} (t, k) (tenant, key) =
        (pair_beq_iff (t, k) (tenant, key)).0 here in
      let gone : lookup (tenant, key) l ≡ none = rw same at (d.0) in
      let is_key : k ≡ key = ap (λ (p : Bytes × Bytes). p.1) same in
      ground (arith, old_of-absent tenant key l gone, cost_lem k v f.0)
  | inr apart ↦ ground (arith, old_of-lookup tenant key l d.1 f.1)
]

pub insert-AllFit :
    (tenant key value : Bytes) (l : HookKv)
    → Fits key value
    → AllFit l
    → AllFit (insert (tenant, key) value l)
unfolding insert
insert-AllFit tenant key value [] h f = (h, tt)
insert-AllFit tenant key value (((t, k), v) ∷ l) h f =
    elim (Bool-cases (pair_beq (t, k) (tenant, key))) [
      | inl here ↦ rw here (h, f.1)
      | inr apart ↦ rw apart (f.0, insert-AllFit tenant key value l h f.1)
    ]

-- Without overflow the check is the one on numbers.
pub above_cap-ltb :
    (used old cost cap : ℕ)
    → used - old + cost < 2 ^ 63
    → above_cap used old cost cap ≡ ltb cap (used - old + cost)
unfolding above_cap
above_cap-ltb used old cost cap h = ground arith

pub pg_cost_lem :
    (key value : Bytes) → Fits key value → pg_cost key value ≡ 64 + length key + length value
unfolding pg_cost
pg_cost_lem key value h = ground arith
