-- ===== src/Registry/Cache/Weights.antt =====
-- The byte accounting of `ComponentCache::insert` in crates/core/src/registry.rs.
use warpline.Base.{
  ℕ, zero, suc, ◌+◌, ◌^◌, ◌≤◌, ◌<◌, ◌≡◌, refl, ap, ◌⊎◌, inl, inr, List, [], ◌∷◌, none, some, arith,
  Bool-cases, length, take, sum_by, Bytes, bytes_beq, bytes_beq_iff, bytes_eq, pair_eq, lookup,
  remove,
}
use warpline.Registry.Lru.{Lru, last?, drop_last, Distinct}
use warpline.Registry.Cache.{CacheEntry, ComponentCache}

module _ {Pre : Type 0} where
  -- The bytes of the components that are held, counted from the entries.
  abbrev pub weight_of : List (Bytes × CacheEntry Pre) → ℕ
  weight_of = sum_by (λ e. e.1.weight)

  pub weight_of-drop_last :
      (l : List (Bytes × CacheEntry Pre)) (e : Bytes × CacheEntry Pre)
      → last? l ≡ some e
      → weight_of l ≡ weight_of (drop_last l) + e.1.weight
  weight_of-drop_last [] e h = absurd (ground arith)
  weight_of-drop_last (x ∷ []) e h = ground arith
  weight_of-drop_last (x ∷ y ∷ l) e h = omega (arith, weight_of-drop_last (y ∷ l) e h)

  pub length-drop_last :
      (l : List (Bytes × CacheEntry Pre)) (e : Bytes × CacheEntry Pre)
      → last? l ≡ some e
      → length l ≡ suc (length (drop_last l))
  length-drop_last [] e h = absurd (ground arith)
  length-drop_last (x ∷ []) e h = refl
  length-drop_last (x ∷ y ∷ l) e h = ap suc (length-drop_last (y ∷ l) e h)

  pub last?-none : (l : List (Bytes × CacheEntry Pre)) → last? l ≡ none → l ≡ []
  last?-none [] h = refl
  last?-none (x ∷ []) h = absurd (ground arith)
  last?-none (x ∷ y ∷ l) h = absurd (nothing (last?-none (y ∷ l) h))
    where
      nothing : y ∷ l ≡ [] → ⊥
      nothing e = ground arith

  pub weight_of-take-le :
      (n : ℕ) (l : List (Bytes × CacheEntry Pre)) → weight_of (take n l) ≤ weight_of l
  weight_of-take-le zero l = omega arith
  weight_of-take-le (suc n) [] = omega arith
  weight_of-take-le (suc n) (x ∷ l) = omega (arith, weight_of-take-le n l)

  remove-absent :
      (k : Bytes) (l : List (Bytes × CacheEntry Pre)) → lookup k l ≡ none → remove k l ≡ l
  unfolding lookup remove
  remove-absent k [] h = refl
  remove-absent k ((j, e) ∷ l) h = ground (arith, remove-absent k l)

  -- One entry for a key: without it the rest weighs that much less.
  pub weight_of-remove :
      (k : Bytes) (l : List (Bytes × CacheEntry Pre)) (e : CacheEntry Pre)
      → Distinct l
      → lookup k l ≡ some e
      → weight_of l ≡ weight_of (remove k l) + e.weight
  unfolding lookup remove
  weight_of-remove k [] e d h = absurd (ground arith)
  weight_of-remove k ((j, x) ∷ l) e d h = elim (Bool-cases (bytes_beq j k)) [
    | inl same ↦
        let eq : j ≡ k = (bytes_beq_iff j k).0 same in
        let absent : lookup k l ≡ none = rw (← eq) (d.0) in ground (arith, remove-absent k l absent)
    | inr other ↦ ground (arith, weight_of-remove k l e d.1)
  ]

module _ {Pre : Type 0} (c : Lru (CacheEntry Pre)) where
  abbrev pub held : ComponentCache c → List (Bytes × CacheEntry Pre)
  held cache = c.entries cache.lru

  -- The total covers what is held and is within the budget, unless nothing is held.
  pub record Covered (cache : ComponentCache c) : Type 0 where
    pub covers : weight_of (held cache) ≤ cache.total_bytes
    pub settled : (cache.total_bytes ≤ cache.byte_budget) ⊎ (held cache ≡ [])
    pub budget_bound : cache.byte_budget < 2 ^ 62
    pub total_bound : cache.total_bytes < 2 ^ 63
