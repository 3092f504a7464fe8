-- ===== src/Registry/Cache/Evict.antt =====
-- The eviction loop of `ComponentCache::insert` in crates/core/src/registry.rs.
use warpline.Base.{
  ℕ, zero, suc, ◌+◌, ◌-◌, ◌≤◌, ◌<◌, ◌≡◌, refl, sym, ap, ◌∙◌, ◌⊎◌, inl, inr, true, false, [], none,
  some, arith, ltb, Bool-cases, Option-cases, length, Bytes, bytes_eq, pair_eq,
}
use warpline.Registry.Lru.{Lru, drop_last}
use warpline.Registry.Cache.{CacheEntry, ComponentCache, evict, evict_one, charge, insert_entry}
use warpline.Registry.Cache.Weights.{
  weight_of, weight_of-drop_last, length-drop_last, last?-none, held,
}

module _ {Pre : Type 0} (c : Lru (CacheEntry Pre)) where
  -- What the loop leaves, from a cache whose total covers its entries.
  pub record Evicted (before : ComponentCache c) (after : ComponentCache c) : Type 0 where
    pub same_budget : after.byte_budget ≡ before.byte_budget
    pub covers : weight_of (held c after) ≤ after.total_bytes
    pub settled : (after.total_bytes ≤ after.byte_budget) ⊎ (held c after ≡ [])
    pub shed :
        after.total_bytes + weight_of (held c before)
        ≡ before.total_bytes + weight_of (held c after)

  evict-within :
      (fuel : ℕ) (cache : ComponentCache c)
      → ltb cache.byte_budget cache.total_bytes ≡ false
      → evict c (suc fuel) cache ≡ cache
  unfolding evict
  evict-within fuel cache within = rw (within, evict) refl

  evict-empty :
      (fuel : ℕ) (cache : ComponentCache c)
      → ltb cache.byte_budget cache.total_bytes ≡ true
      → (c.pop_lru cache.lru).1 ≡ none
      → evict c (suc fuel) cache ≡ record cache { lru = (c.pop_lru cache.lru).0 }
  unfolding evict
  evict-empty fuel cache over empty = rw (over, empty, evict) refl

  evict-popped :
      (fuel : ℕ) (cache : ComponentCache c) (e : Bytes × CacheEntry Pre)
      → ltb cache.byte_budget cache.total_bytes ≡ true
      → (c.pop_lru cache.lru).1 ≡ some e
      → evict c (suc fuel) cache ≡ evict c fuel (evict_one c cache e.1 (c.pop_lru cache.lru).0)
  unfolding evict
  evict-popped fuel cache e over popped = rw (over, popped, evict) refl

  -- With more rounds than entries the loop ends by its test or with nothing left to pop, and sheds
  -- as many bytes from the total as from the entries.
  pub evict-Evicted :
      (fuel : ℕ) (cache : ComponentCache c)
      → weight_of (held c cache) ≤ cache.total_bytes
      → length (held c cache) < fuel
      → Evicted cache (evict c fuel cache)
  unfolding evict_one
  evict-Evicted zero cache cov f = absurd (omega arith)
  evict-Evicted (suc fuel) cache cov f =
      elim (Bool-cases (ltb cache.byte_budget cache.total_bytes)) [
        | inr within ↦
            rw (evict-within fuel cache within) (record {
              same_budget = refl;
              covers = cov;
              settled = inl (ground arith);
              shed = refl;
            })
        | inl over ↦ elim (Option-cases (c.pop_lru cache.lru).1) [
          | inl empty ↦
              let nothing : held c cache ≡ [] =
                last?-none (held c cache) (sym (c.pop_lru-last cache.lru) ∙ empty) in
              let left : c.entries (c.pop_lru cache.lru).0 ≡ [] =
                c.entries-pop_lru cache.lru ∙ ap drop_last nothing in
              rw (evict-empty fuel cache over empty) (record {
                same_budget = refl;
                covers = omega (arith, ap weight_of left);
                settled = inr left;
                shed = omega (arith, ap weight_of left, ap weight_of nothing);
              })
          | inr (e, popped) ↦
              let last = sym (c.pop_lru-last cache.lru) ∙ popped in
              let drops = weight_of-drop_last (held c cache) e last in
              let shorter = length-drop_last (held c cache) e last in
              let next : ComponentCache c = evict_one c cache e.1 (c.pop_lru cache.lru).0 in
              let left : held c next ≡ drop_last (held c cache) = c.entries-pop_lru cache.lru in
              let total : next.total_bytes ≡ cache.total_bytes - e.1.weight = refl in
              let budget : next.byte_budget ≡ cache.byte_budget = refl in
              let rest =
                evict-Evicted fuel next (omega (arith, ap weight_of left))
                  (omega (arith, ap length left)) in
              rw (evict-popped fuel cache e over popped) (record {
                same_budget = rest.same_budget ∙ budget;
                covers = rest.covers;
                settled = rest.settled;
                shed = (let s = rest.shed in omega (arith, ap weight_of left));
              })
        ]
      ]

  pub insert_entry-Evicted :
      (cache : ComponentCache c) (digest : Bytes) (pre : Pre) (weight : ℕ)
      → weight_of (held c (charge c cache digest pre weight))
        ≤ (charge c cache digest pre weight).total_bytes
      → Evicted (charge c cache digest pre weight) (insert_entry c cache digest pre weight)
  insert_entry-Evicted cache digest pre weight cov =
      unfold insert_entry in
      evict-Evicted (suc (length (held c (charge c cache digest pre weight))))
        (charge c cache digest pre weight) cov (omega arith)
