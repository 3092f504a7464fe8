-- ===== src/Registry/Cache/Drift.antt =====
-- Where the byte count of `ComponentCache` in crates/core/src/registry.rs leaves what is held: at
-- the count cap, and once nothing is held.
use warpline.Base.{
  ℕ, suc, ◌+◌, ◌-◌, ◌^◌, ◌<◌, ◌≡◌, ap, ◌∙◌, inl, inr, [], ◌∷◌, none, some, arith, length, take,
  Bytes, bytes_eq, pair_eq, lookup,
}
use warpline.Registry.Lru.{Lru, last?, drop_last}
use warpline.Registry.Cache.{CacheEntry, ComponentCache, insert_entry}
use warpline.Registry.Cache.Weights.{weight_of, weight_of-drop_last, held}
use warpline.Registry.Cache.Evict.{insert_entry-Evicted}
use warpline.Registry.Cache.Charge.{charge-Charged, charge-new, charge-empty}
use warpline.Registry.Cache.Bounds.{Exact, take-drop_last, held-charge_new, insert_entry-settle}

module _ {Pre : Type 0} (c : Lru (CacheEntry Pre)) where
  -- In a cache that is full by count and whose total is exactly what it holds, an insertion of a
  -- digest that is not held drops the least recently used entry and keeps its weight in the total:
  -- the total is then that weight above what is held. The weight and the budget are below 2^62.
  pub insert_entry-full_drift :
      (cache : ComponentCache c) (digest : Bytes) (pre : Pre) (weight : ℕ)
      (e : Bytes × CacheEntry Pre)
      → Exact c cache
      → weight < 2 ^ 62
      → lookup digest (held c cache) ≡ none
      → length (held c cache) ≡ c.capacity cache.lru
      → last? (held c cache) ≡ some e
      → (insert_entry c cache digest pre weight).total_bytes
        ≡ weight_of (held c (insert_entry c cache digest pre weight)) + e.1.weight
  insert_entry-full_drift cache digest pre weight e (exact, within, bound) wb absent full oldest =
      let (cut, ch) = charge-new c cache digest pre weight absent (omega arith) wb in
      let total = ch.total in
      let weighs = ch.weighs in
      let new : CacheEntry Pre = record { pre = pre; weight = weight } in
      let room : c.capacity cache.lru ≡ suc (c.capacity cache.lru - 1) =
        omega (arith, c.positive cache.lru) in
      let short : take (c.capacity cache.lru) ((digest, new) ∷ held c cache)
          ≡ (digest, new) ∷ drop_last (held c cache) =
        rw room (
          ap (◌∷◌ (digest, new)) (
            take-drop_last c (c.capacity cache.lru - 1) (held c cache)
              (omega (arith, c.positive cache.lru)))) in
      let left = held-charge_new c cache digest pre weight absent ∙ ap weight_of short in
      let dropped = weight_of-drop_last (held c cache) e oldest in
      insert_entry-settle c cache digest pre weight e.1.weight ch.same_budget (omega arith)

  -- Once nothing is held and the total is above the budget, an insertion of any weight below 2^62
  -- leaves nothing held and the total as it was. The total is below 2^63.
  pub insert_entry-dead :
      (cache : ComponentCache c) (digest : Bytes) (pre : Pre) (weight : ℕ)
      → held c cache ≡ []
      → cache.byte_budget < cache.total_bytes
      → cache.total_bytes < 2 ^ 63
      → weight < 2 ^ 62
      → (held c (insert_entry c cache digest pre weight) ≡ [])
        × ((insert_entry c cache digest pre weight).total_bytes ≡ cache.total_bytes)
  insert_entry-dead cache digest pre weight empty over tb wb =
      let none_held : weight_of (held c cache) ≡ 0 = ap weight_of empty in
      let (old, cut, ch) = charge-Charged c cache digest pre weight (omega arith) tb wb in
      let total = ch.total in
      let weighs = ch.weighs in
      let alone = charge-empty c cache digest pre weight empty in
      let ev = insert_entry-Evicted c cache digest pre weight (omega arith) in
      let shed = ev.shed in
      let same = ev.same_budget ∙ ch.same_budget in
      elim ev.settled [
        | inl within ↦ absurd (omega arith)
        | inr left ↦ (left, omega (arith, ap weight_of left))
      ]
