-- ===== src/Types/Limiter/Combined.antt =====
-- The memories of one wasmtime store beside the limiter of crates/core/src/types.rs: every core
-- memory of a component grows through the same limiter, each from its own size.
use warpline.Base.{
  ℕ, ◌+◌, ◌≤◌, ◌<◌, ◌≡◌, refl, ap, true, List, [], ◌∷◌, ◌++◌, Option, arith, sum_by, bytes_eq,
  pair_eq,
}
use warpline.Types.Limiter.{
  TenantLimiter, memory_growing, WithinCaps, size_bound, new_limiter, growing-WithinCaps,
  memory_growing_cases, new_limiter-WithinCaps,
}

-- The store's memories, by their sizes in bytes, and the limiter that it consults.
pub record Memories : Type 0 where
  pub sizes : List ℕ
  pub limiter : TenantLimiter

abbrev pub total_size : List ℕ → ℕ
total_size = sum_by (λ s. s)

-- What wasmtime does with a memory: it asks with the memory's current size, and grows it only if
-- the limiter agrees, in which case the growth may still fail. A new memory grows from 0.
pub data Grow (m : Memories) (n : Memories) : Type 0 where
  granted :
      (before after : List ℕ) (current desired : ℕ) (declared : Option ℕ)
      → m.sizes ≡ before ++ current ∷ after
      → current ≤ desired
      → desired < size_bound
      → (memory_growing m.limiter current desired declared).1 ≡ true
      → n.sizes ≡ before ++ desired ∷ after
      → n.limiter ≡ (memory_growing m.limiter current desired declared).0
      → Grow m n
  created :
      (desired : ℕ) (declared : Option ℕ)
      → desired < size_bound
      → (memory_growing m.limiter 0 desired declared).1 ≡ true
      → n.sizes ≡ desired ∷ m.sizes
      → n.limiter ≡ (memory_growing m.limiter 0 desired declared).0
      → Grow m n
  failed :
      (current desired : ℕ) (declared : Option ℕ)
      → desired < size_bound
      → n.sizes ≡ m.sizes
      → n.limiter ≡ (memory_growing m.limiter current desired declared).0
      → Grow m n

pub data Reach (m : Memories) : Memories → Type 0 where
  here : Reach m m
  next : {n k : Memories} → Reach m n → Grow n k → Reach m k

pub record Accounted (cap : ℕ) (m : Memories) : Type 0 where
  pub within : WithinCaps m.limiter
  pub cap_fixed : m.limiter.mem_cap_bytes ≡ cap
  pub counted : total_size m.sizes ≤ m.limiter.total_bytes

total_size-middle :
    (before after : List ℕ) (s : ℕ)
    → total_size (before ++ s ∷ after) ≡ total_size before + s + total_size after
total_size-middle [] after s = omega arith
total_size-middle (b ∷ before) after s = omega (arith, total_size-middle before after s)

-- A step of the store keeps the combined size of the memories within what the limiter counts.
Grow-Accounted : (cap : ℕ) (m n : Memories) → Accounted cap m → Grow m n → Accounted cap n
unfolding memory_growing
Grow-Accounted cap m n v (granted before after current desired declared e le lt ok' e' l) = record {
  within = rw l (growing-WithinCaps m.limiter current desired declared v.within lt).0;
  cap_fixed = ground arith;
  counted = ground (
    arith,
    memory_growing_cases m.limiter current desired declared v.within lt,
    total_size-middle before after current,
    total_size-middle before after desired,
    ap total_size e,
    ap total_size e',
  );
}
Grow-Accounted cap m n v (created desired declared lt ok' e l) = record {
  within = rw l (growing-WithinCaps m.limiter 0 desired declared v.within lt).0;
  cap_fixed = ground arith;
  counted =
      ground
        (arith, memory_growing_cases m.limiter 0 desired declared v.within lt, ap total_size e);
}
Grow-Accounted cap m n v (failed current desired declared lt e l) = record {
  within = rw l (growing-WithinCaps m.limiter current desired declared v.within lt).0;
  cap_fixed = ground arith;
  counted =
      ground (
        arith,
        memory_growing_cases m.limiter current desired declared v.within lt,
        ap total_size e,
      );
}

abbrev pub fresh : ℕ → Memories
fresh cap = record { sizes = []; limiter = new_limiter cap }

fresh-Accounted : (cap : ℕ) → cap < size_bound → Accounted cap (fresh cap)
fresh-Accounted cap h = record {
  within = new_limiter-WithinCaps cap h;
  cap_fixed = refl;
  counted = omega arith;
}

Reach-Accounted :
    (cap : ℕ) {m : Memories} → cap < size_bound → Reach (fresh cap) m → Accounted cap m
Reach-Accounted cap h here = fresh-Accounted cap h
Reach-Accounted cap h (next r g) = Grow-Accounted cap _ _ (Reach-Accounted cap h r) g

-- However many memories a store creates and grows through a fresh limiter, their combined size
-- never exceeds the recorded peak, and the peak never exceeds the tenant's memory cap. The cap is
-- below 2^63.
pub combined-le-cap :
    (cap : ℕ) {m : Memories}
    → cap < size_bound
    → Reach (fresh cap) m
    → (total_size m.sizes ≤ m.limiter.peak_bytes) × (m.limiter.peak_bytes ≤ cap)
combined-le-cap cap {m} h r = let v = Reach-Accounted cap h r in let w = v.within in omega arith
