-- ===== src/Examples/Cache.antt =====
-- Tests of `ComponentCache` in crates/core/src/registry.rs.
use warpline.Base.{ℕ, ◌+◌, ◌≤◌, ◌≡◌, refl, inl, [], ◌∷◌, none, arith, bytes_eq, pair_eq, lookup}
use warpline.Base.Text.{codes}
use warpline.Registry.Lru.{Lru}
use warpline.Registry.Cache.{CacheEntry, ComponentCache, new_cache, insert_entry}
use warpline.Registry.Cache.Weights.{weight_of, held, Covered}
use warpline.Registry.Cache.Bounds.{insert_entry-Covered, Exact}
use warpline.Registry.Cache.Drift.{insert_entry-full_drift}
use warpline.Examples.ListLru.{list_lru}

-- Components are numbers.
abbrev lru : Lru (CacheEntry ℕ)
lru = list_lru (CacheEntry ℕ)

abbrev cold : ComponentCache lru
cold = record { lru = lru.new 1; total_bytes = 0; byte_budget = 100 }

cold_test : new_cache lru 1 100 ≡ cold
unfolding new_cache
cold_test = refl

cold-Exact : Exact lru cold
cold-Exact = (refl, omega arith, omega arith)

cold-Covered : Covered lru cold
cold-Covered = record {
  covers = omega arith;
  settled = inl (omega arith);
  budget_bound = omega arith;
  total_bound = omega arith;
}

insert_entry-Covered_example :
    Covered lru (insert_entry lru cold (codes "a") 7 60)
    × (weight_of (held lru (insert_entry lru cold (codes "a") 7 60)) ≤ 100)
insert_entry-Covered_example =
    insert_entry-Covered lru cold (codes "a") 7 60 cold-Covered (omega arith)

abbrev entry_a : CacheEntry ℕ
entry_a = record { pre = 7; weight = 60 }

-- The one place is taken by a.
abbrev warm : ComponentCache lru
warm = record {
  lru = record {
    list = (codes "a", entry_a) ∷ [];
    cap = 1;
    list-Distinct = (unfold lookup in refl, tt);
    length-le-cap = omega arith;
    cap-positive = omega arith;
  };
  total_bytes = 60;
  byte_budget = 100;
}

b_absent : lookup (codes "b") (held lru warm) ≡ none
unfolding lookup
b_absent = refl

insert_entry-full_drift_example :
    (insert_entry lru warm (codes "b") 8 30).total_bytes
    ≡ weight_of (held lru (insert_entry lru warm (codes "b") 8 30)) + 60
insert_entry-full_drift_example =
    insert_entry-full_drift lru warm (codes "b") 8 30 (codes "a", entry_a)
      (refl, omega arith, omega arith) (omega arith) b_absent refl refl

abbrev spent : ComponentCache lru
spent = record cold { total_bytes = 150 }
