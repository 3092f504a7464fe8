-- ===== src/Registry/Cache/Charge.antt =====
-- `ComponentCache::insert` of crates/core/src/registry.rs up to its eviction loop.
use warpline.Base.{
  ℕ, zero, suc, ◌+◌, ◌-◌, ◌^◌, ◌≤◌, ◌<◌, ◌≡◌, refl, ap, ◌∙◌, inl, inr, List, [], ◌∷◌, none, some,
  arith, Option-cases, take, Bytes, bytes_eq, pair_eq, lookup,
}
use warpline.Registry.Lru.{Lru}
use warpline.Registry.Cache.{CacheEntry, ComponentCache, charge}
use warpline.Registry.Cache.Weights.{weight_of, weight_of-take-le, weight_of-remove, held}

module _ {Pre : Type 0} (c : Lru (CacheEntry Pre)) where
  -- What the insertion before the loop leaves: `old` is the weight that is discharged, `cut` what a
  -- full cache drops by itself.
  pub record Charged (before : ComponentCache c) (weight : ℕ) (after : ComponentCache c)
      (old cut : ℕ) : Type 0 where
    pub same_budget : after.byte_budget ≡ before.byte_budget
    pub total : after.total_bytes ≡ before.total_bytes - old + weight
    pub old_part : old ≤ weight_of (held c before)
    pub cut_part : cut ≤ weight_of (held c before)
    pub weighs : weight_of (held c after) + old + cut ≡ weight_of (held c before) + weight

  weight_of-cut :
      (n : ℕ) (e : Bytes × CacheEntry Pre) (l : List (Bytes × CacheEntry Pre))
      → 0 < n
      → (k : ℕ) × (k ≤ weight_of l) × (weight_of (take n (e ∷ l)) + k ≡ weight_of l + e.1.weight)
  weight_of-cut zero e l pos_n = absurd (omega arith)
  weight_of-cut (suc n) e l pos_n =
      (weight_of l - weight_of (take n l), omega arith, omega (arith, weight_of-take-le n l))

  pub charge-old :
      (cache : ComponentCache c) (digest : Bytes) (pre : Pre) (weight : ℕ) (e : CacheEntry Pre)
      → lookup digest (held c cache) ≡ some e
      → weight_of (held c cache) ≤ cache.total_bytes
      → cache.total_bytes < 2 ^ 63
      → weight < 2 ^ 62
      → Charged cache weight (charge c cache digest pre weight) e.weight 0
  unfolding charge
  charge-old cache digest pre weight e there cov tb wb =
      let new : CacheEntry Pre = record { pre = pre; weight = weight } in
      let result = c.put-lookup digest new cache.lru ∙ there in
      let entries = c.entries-put_old digest new e cache.lru there in
      let rest = weight_of-remove digest (held c cache) e (c.distinct cache.lru) there in
      record {
        same_budget = refl;
        total = rw result (omega arith);
        old_part = omega arith;
        cut_part = omega arith;
        weighs = omega (arith, ap weight_of entries);
      }

  pub charge-new :
      (cache : ComponentCache c) (digest : Bytes) (pre : Pre) (weight : ℕ)
      → lookup digest (held c cache) ≡ none
      → cache.total_bytes < 2 ^ 63
      → weight < 2 ^ 62
      → (cut : ℕ) × Charged cache weight (charge c cache digest pre weight) 0 cut
  unfolding charge
  charge-new cache digest pre weight absent tb wb =
      let new : CacheEntry Pre = record { pre = pre; weight = weight } in
      let result = c.put-lookup digest new cache.lru ∙ absent in
      let entries = c.entries-put_new digest new cache.lru absent in
      let (k, small, short) =
        weight_of-cut (c.capacity cache.lru) (digest, new) (held c cache) (c.positive cache.lru) in
      (
        k,
        record {
          same_budget = refl;
          total = rw result (omega arith);
          old_part = omega arith;
          cut_part = small;
          weighs = omega (arith, short, ap weight_of entries);
        },
      )

  pub charge-Charged :
      (cache : ComponentCache c) (digest : Bytes) (pre : Pre) (weight : ℕ)
      → weight_of (held c cache) ≤ cache.total_bytes
      → cache.total_bytes < 2 ^ 63
      → weight < 2 ^ 62
      → (old cut : ℕ) × Charged cache weight (charge c cache digest pre weight) old cut
  charge-Charged cache digest pre weight cov tb wb =
      elim (Option-cases (lookup digest (held c cache))) [
        | inl absent ↦
            let (cut, done) = charge-new cache digest pre weight absent tb wb in (0, cut, done)
        | inr (e, there) ↦ (e.weight, 0, charge-old cache digest pre weight e there cov tb wb)
      ]

  -- An insertion into an empty cache holds the new entry alone.
  pub charge-empty :
      (cache : ComponentCache c) (digest : Bytes) (pre : Pre) (weight : ℕ)
      → held c cache ≡ []
      → weight_of (held c (charge c cache digest pre weight)) ≡ weight
  unfolding charge
  charge-empty cache digest pre weight empty =
      let new : CacheEntry Pre = record { pre = pre; weight = weight } in
      let absent : lookup digest (held c cache) ≡ none = rw empty (unfold lookup in refl) in
      let entries = c.entries-put_new digest new cache.lru absent in
      let room : c.capacity cache.lru ≡ suc (c.capacity cache.lru - 1) =
        omega (arith, c.positive cache.lru) in
      let alone : take (c.capacity cache.lru) ((digest, new) ∷ held c cache) ≡ (digest, new) ∷ [] =
        rw (room, empty) (ap (◌∷◌ (digest, new)) (take-nil (c.capacity cache.lru - 1))) in
      omega (arith, ap weight_of (entries ∙ alone))
    where
      take-nil : (n : ℕ) → take {A = Bytes × CacheEntry Pre} n [] ≡ []
      take-nil zero = refl
      take-nil (suc n) = refl
