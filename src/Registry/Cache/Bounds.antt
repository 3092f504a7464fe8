-- ===== src/Registry/Cache/Bounds.antt =====
-- How far `ComponentCache` of crates/core/src/registry.rs keeps to its byte budget.
use warpline.Base.{
  ℕ, zero, suc, ◌+◌, ◌^◌, ◌≤◌, ◌<◌, ◌≡◌, refl, ap, ◌∙◌, ◌≢◌, ◌⊎◌, inl, inr, List, [], ◌∷◌, none,
  arith, Option-cases, length, take, Bytes, bytes_eq, pair_eq, lookup,
}
use warpline.Registry.Lru.{Lru, drop_last, promote}
use warpline.Registry.Cache.{CacheEntry, ComponentCache, get_cached, charge, insert_entry}
use warpline.Registry.Cache.Weights.{weight_of, weight_of-remove, held, Covered}
use warpline.Registry.Cache.Evict.{insert_entry-Evicted}
use warpline.Registry.Cache.Charge.{charge-Charged, charge-new, charge-old}

module _ {Pre : Type 0} (c : Lru (CacheEntry Pre)) where
  -- A cache whose total covers the bytes it holds still has that after an insertion of any weight
  -- below 2^62, of a digest that it holds or not, and then it holds at most `byte_budget` bytes.
  pub insert_entry-Covered :
      (cache : ComponentCache c) (digest : Bytes) (pre : Pre) (weight : ℕ)
      → Covered c cache
      → weight < 2 ^ 62
      → Covered c (insert_entry c cache digest pre weight)
        × (weight_of (held c (insert_entry c cache digest pre weight)) ≤ cache.byte_budget)
  insert_entry-Covered cache digest pre weight cov wb =
      let after : ComponentCache c = insert_entry c cache digest pre weight in
      let mid : ComponentCache c = charge c cache digest pre weight in
      let (old, cut, ch) = charge-Charged c cache digest pre weight cov.covers cov.total_bound wb in
      let total = ch.total in
      let weighs = ch.weighs in
      let old_part = ch.old_part in
      let cut_part = ch.cut_part in
      let covered = cov.covers in
      let bound = cov.budget_bound in
      let tb = cov.total_bound in
      let ev = insert_entry-Evicted c cache digest pre weight (omega arith) in
      let shed = ev.shed in
      let covers = ev.covers in
      let same : after.byte_budget ≡ cache.byte_budget = ev.same_budget ∙ ch.same_budget in
      elim ev.settled [
        | inl within ↦ (
          record {
            covers = covers;
            settled = inl within;
            budget_bound = omega arith;
            total_bound = omega arith;
          },
          omega arith,
        )
        | inr empty ↦
            let nothing : weight_of (held c after) ≡ 0 = ap weight_of empty in
            (
              record {
                covers = covers;
                settled = inr empty;
                budget_bound = omega arith;
                total_bound = omega arith;
              },
              omega arith,
            )
      ]

  -- A lookup keeps the total, the budget, and what is held but for its order; so a cache whose total
  -- covers the bytes it holds still has that.
  pub get_cached-Covered :
      (cache : ComponentCache c) (digest : Bytes)
      → Covered c cache
      → Covered c (get_cached c cache digest).0
        × (weight_of (held c (get_cached c cache digest).0) ≡ weight_of (held c cache))
  unfolding get_cached lookup
  get_cached-Covered cache digest cov =
      let after : ComponentCache c = (get_cached c cache digest).0 in
      let got : held c after ≡ promote digest (lookup digest (held c cache)) (held c cache) =
        c.entries-get digest cache.lru in
      let covered = cov.covers in
      let bound = cov.budget_bound in
      let tb = cov.total_bound in
      let same : weight_of (held c after) ≡ weight_of (held c cache) =
        elim (Option-cases (lookup digest (held c cache))) [
          | inl absent ↦ ap weight_of (got ∙ ap (λ o. promote digest o (held c cache)) absent)
          | inr (e, there) ↦
              let moved = got ∙ ap (λ o. promote digest o (held c cache)) there in
              omega (
                arith,
                ap weight_of moved,
                weight_of-remove digest (held c cache) e (c.distinct cache.lru) there,
              )
        ] in
      let settled : (cache.total_bytes ≤ cache.byte_budget) ⊎ (held c after ≡ []) =
        elim cov.settled [
          | inl within ↦ inl within
          | inr empty ↦ inr (got ∙ ap (promote-in digest) empty)
        ] in
      (
        record { covers = omega arith; settled = settled; budget_bound = bound; total_bound = tb },
        same,
      )
    where
      promote-in : Bytes → List (Bytes × CacheEntry Pre) → List (Bytes × CacheEntry Pre)
      promote-in k l = promote k (lookup k l) l

  -- The total is what is held, and within the budget.
  abbrev pub Exact : ComponentCache c → Type 0
  Exact cache =
      (cache.total_bytes ≡ weight_of (held c cache))
      × (cache.total_bytes ≤ cache.byte_budget)
      × (cache.byte_budget < 2 ^ 62)

  take-all : (n : ℕ) (l : List (Bytes × CacheEntry Pre)) → length l ≤ n → take n l ≡ l
  take-all zero [] h = refl
  take-all zero (x ∷ l) h = absurd (omega arith)
  take-all (suc n) [] h = refl
  take-all (suc n) (x ∷ l) h = ap (◌∷◌ x) (take-all n l (omega arith))

  pub take-drop_last :
      (n : ℕ) (l : List (Bytes × CacheEntry Pre)) → length l ≡ suc n → take n l ≡ drop_last l
  take-drop_last n [] h = absurd (omega arith)
  take-drop_last zero (x ∷ []) h = refl
  take-drop_last (suc n) (x ∷ []) h = absurd (omega arith)
  take-drop_last zero (x ∷ y ∷ l) h = absurd (omega arith)
  take-drop_last (suc n) (x ∷ y ∷ l) h = ap (◌∷◌ x) (take-drop_last n (y ∷ l) (omega arith))

  -- What is held before the loop, where a new digest goes in.
  pub held-charge_new :
      (cache : ComponentCache c) (digest : Bytes) (pre : Pre) (weight : ℕ)
      → lookup digest (held c cache) ≡ none
      → weight_of (held c (charge c cache digest pre weight))
        ≡ weight_of (
            take
              (c.capacity cache.lru)
              ((digest, record { pre = pre; weight = weight }) ∷ held c cache))
  unfolding charge
  held-charge_new cache digest pre weight absent =
      ap weight_of
        (c.entries-put_new digest (record { pre = pre; weight = weight }) cache.lru absent)

  -- After an exact insertion before the loop, the loop leaves an exact cache.
  pub insert_entry-settle :
      (cache : ComponentCache c) (digest : Bytes) (pre : Pre) (weight lost : ℕ)
      → (charge c cache digest pre weight).byte_budget ≡ cache.byte_budget
      → (charge c cache digest pre weight).total_bytes
        ≡ weight_of (held c (charge c cache digest pre weight)) + lost
      → (insert_entry c cache digest pre weight).total_bytes
        ≡ weight_of (held c (insert_entry c cache digest pre weight)) + lost
  insert_entry-settle cache digest pre weight lost same exact =
      let ev = insert_entry-Evicted c cache digest pre weight (omega arith) in
      let shed = ev.shed in omega arith

  -- In a cache whose total is exactly what it holds, an insertion of a digest that is held, or of
  -- any digest while the count is below the capacity, leaves the total exact and within the budget.
  -- The weight and the budget are below 2^62.
  pub insert_entry-Exact :
      (cache : ComponentCache c) (digest : Bytes) (pre : Pre) (weight : ℕ)
      → Exact cache
      → weight < 2 ^ 62
      → (lookup digest (held c cache) ≢ none) ⊎ (length (held c cache) < c.capacity cache.lru)
      → Exact (insert_entry c cache digest pre weight)
  insert_entry-Exact cache digest pre weight (exact, within, bound) wb room =
      let after : ComponentCache c = insert_entry c cache digest pre weight in
      let covered : Covered c cache = record {
        covers = omega arith;
        settled = inl within;
        budget_bound = bound;
        total_bound = omega arith;
      } in
      let kept = (insert_entry-Covered cache digest pre weight covered wb).0 in
      let charged : ((charge c cache digest pre weight).byte_budget ≡ cache.byte_budget)
          × ((charge c cache digest pre weight).total_bytes
              ≡ weight_of (held c (charge c cache digest pre weight)) + 0) =
        elim (Option-cases (lookup digest (held c cache))) [
          | inr (e, there) ↦
              let ch =
                charge-old c cache digest pre weight e there (omega arith) (omega arith) wb in
              let total = ch.total in
              let weighs = ch.weighs in let old_part = ch.old_part in (ch.same_budget, omega arith)
          | inl absent ↦ elim room [
            | inl present ↦ absurd (present absent)
            | inr free ↦
                let (cut, ch) = charge-new c cache digest pre weight absent (omega arith) wb in
                let total = ch.total in
                let weighs = ch.weighs in
                let all_in =
                  held-charge_new cache digest pre weight absent
                  ∙ ap weight_of (
                      take-all (c.capacity cache.lru)
                        ((digest, record { pre = pre; weight = weight }) ∷ held c cache)
                        (omega arith)) in
                (ch.same_budget, omega arith)
          ]
        ] in
      let exact_after = insert_entry-settle cache digest pre weight 0 charged.0 charged.1 in
      let bb = kept.budget_bound in
      elim kept.settled [
        | inl ok_after ↦ (omega arith, ok_after, bb)
        | inr empty ↦ (omega arith, omega (arith, ap weight_of empty), bb)
      ]
