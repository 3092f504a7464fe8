-- ===== src/Kv/MemKv/Quota.antt =====
-- The quota of `MemKv` (crates/core/src/kv.rs): what a tenant is charged is what it stores.
use warpline.Base.{
  ℕ, ◌+◌, ◌-◌, ◌^◌, ◌≤◌, ◌<◌, ◌≡◌, refl, ◌≢◌, ◌⊎◌, inl, inr, false, some, arith, ltb, if◌then◌else◌,
  Bool-cases, Option-cases, length, ok, err, Bytes, bytes_beq, bytes_beq_iff, bytes_eq, pair_beq,
  pair_eq, lookup, insert, lookup-insert, weigh, weight_at, weigh-insert, weight_at-le,
}
use warpline.Kv.{KvError, quota_exceeded}
use warpline.Kv.MemKv.{
  MemKv, with_capacity_bytes, cost, cost_or_zero, or_zero, get, new_used, store, put,
}

-- What one entry costs one tenant.
abbrev pub charge : Bytes → Bytes × Bytes → Bytes → ℕ
charge tenant k v = if bytes_beq k.0 tenant then cost k.1 (length v) else 0

-- What all the stored entries cost a tenant, counted from the entries alone.
abbrev pub stored : Bytes → MemKv → ℕ
stored tenant s = weigh (charge tenant) s.entries

-- What the tenant is charged, from the running total.
abbrev pub used : MemKv → Bytes → ℕ
used s tenant = or_zero (lookup tenant s.tenant_bytes)

-- Every tenant is charged exactly what it stores, which fits the cap.
pub record WithinQuota (s : MemKv) : Type 0 where
  pub charged : (tenant : Bytes) → used s tenant ≡ stored tenant s
  pub capped : (tenant : Bytes) → used s tenant ≤ s.tenant_cap_bytes
  pub bounded : s.tenant_cap_bytes < 2 ^ 63

-- A key and a value that fit into memory.
abbrev pub Fits : Bytes → Bytes → Type 0
Fits key value = 64 + length key + length value < 2 ^ 63

pub cost_lem :
    (key value : Bytes) → Fits key value → cost key (length value) ≡ 64 + length key + length value
unfolding cost
cost_lem key value h = omega arith

old-charge :
    (s : MemKv) (tenant key : Bytes)
    → cost_or_zero key (lookup (tenant, key) s.entries)
      ≡ weight_at (charge tenant) (tenant, key) (lookup (tenant, key) s.entries)
old-charge s tenant key = elim (Option-cases (lookup (tenant, key) s.entries)) [
  | inl e ↦ rw e refl
  | inr (v, e) ↦ rw (e, (bytes_beq_iff tenant tenant).1 refl) refl
]

-- The old entry's cost is part of what the tenant is charged.
pub old-le-used :
    (s : MemKv) (tenant key : Bytes)
    → WithinQuota s
    → cost_or_zero key (lookup (tenant, key) s.entries) ≤ used s tenant
old-le-used s tenant key v =
    rw (old-charge s tenant key, v.charged tenant)
      (weight_at-le (charge tenant) (tenant, key) s.entries)

-- The documented "never underflows": on a store within its quota the new charge is the old one,
-- less the old entry's cost, plus the new entry's cost, with no wrap-around. The store was within
-- its quota, and key and value are shorter than 2^63 bytes with the overhead.
pub new_used-exact :
    (s : MemKv) (tenant key value : Bytes)
    → WithinQuota s
    → Fits key value
    → (cost_or_zero key (lookup (tenant, key) s.entries) ≤ used s tenant)
      × (new_used s tenant key value
          ≡ used s tenant
            - cost_or_zero key (lookup (tenant, key) s.entries)
            + (64 + length key + length value))
unfolding new_used
new_used-exact s tenant key value v h =
    let le = old-le-used s tenant key v in
    let cap = v.capped tenant in
    let bound = v.bounded in (le, rw (cost_lem key value h) (omega arith))

stored-insert :
    (s : MemKv) (tenant key value other : Bytes)
    → weigh (charge other) (insert (tenant, key) value s.entries)
        + weight_at (charge other) (tenant, key) (lookup (tenant, key) s.entries)
      ≡ stored other s + charge other (tenant, key) value
stored-insert s tenant key value other = weigh-insert (charge other) (tenant, key) value s.entries

other-charge :
    (s : MemKv) (tenant key other : Bytes)
    → bytes_beq tenant other ≡ false
    → weight_at (charge other) (tenant, key) (lookup (tenant, key) s.entries) ≡ 0
other-charge s tenant key other ne = elim (Option-cases (lookup (tenant, key) s.entries)) [
  | inl e ↦ rw e refl
  | inr (v, e) ↦ rw (e, ne) refl
]

-- What a put that fits leaves each tenant charged.
pub used-store :
    (s : MemKv) (tenant key value other : Bytes)
    → used (store s tenant key value) other
      ≡ (if bytes_beq tenant other then new_used s tenant key value else used s other)
unfolding store
used-store s tenant key value other =
    rw (lookup-insert tenant other (new_used s tenant key value) s.tenant_bytes)
      (ground (arith, Bool-cases (bytes_beq tenant other)))

own-charged :
    (s : MemKv) (tenant key value : Bytes)
    → WithinQuota s
    → Fits key value
    → new_used s tenant key value ≡ stored tenant (store s tenant key value)
unfolding store
own-charged s tenant key value v h =
    let self = (bytes_beq_iff tenant tenant).1 refl in
    let own : charge tenant (tenant, key) value ≡ cost key (length value) = rw self refl in
    omega (
      arith,
      new_used-exact s tenant key value v h,
      stored-insert s tenant key value tenant,
      old-charge s tenant key,
      old-le-used s tenant key v,
      v.charged tenant,
      cost_lem key value h,
      own,
    )

others-charged :
    (s : MemKv) (tenant key value other : Bytes)
    → bytes_beq tenant other ≡ false
    → stored other (store s tenant key value) ≡ stored other s
unfolding store
others-charged s tenant key value other ne =
    let own : charge other (tenant, key) value ≡ 0 = rw ne refl in
    omega (arith, stored-insert s tenant key value other, other-charge s tenant key other ne, own)

store-charged :
    (s : MemKv) (tenant key value : Bytes)
    → WithinQuota s
    → Fits key value
    → (other : Bytes)
    → used (store s tenant key value) other ≡ stored other (store s tenant key value)
store-charged s tenant key value v h other =
    rw (used-store s tenant key value other) (elim (Bool-cases (bytes_beq tenant other)) [
      | inl same ↦
          rw (same, ← (bytes_beq_iff tenant other).0 same) (own-charged s tenant key value v h)
      | inr ne ↦ rw (ne, others-charged s tenant key value other ne) (v.charged other)
    ])

-- A put that fails changes nothing.
put-err :
    (s : MemKv) (tenant key value : Bytes) (e : KvError)
    → (put s tenant key value).1 ≡ err e
    → (put s tenant key value).0 ≡ s
unfolding put
put-err s tenant key value e h = ground arith

store-WithinQuota :
    (s : MemKv) (tenant key value : Bytes)
    → WithinQuota s
    → Fits key value
    → new_used s tenant key value ≤ s.tenant_cap_bytes
    → WithinQuota (store s tenant key value)
store-WithinQuota s tenant key value v h fits = record {
  charged = store-charged s tenant key value v h;
  capped = λ other.
      rw (used-store s tenant key value other) (unfold store in ground (arith, v.capped other));
  bounded = unfold store in v.bounded;
}

-- Every put, accepted or not, keeps each tenant charged exactly what its entries cost, and within
-- the cap. The store was within its quota, and key and value are shorter than 2^63 bytes with the
-- overhead.
pub put-WithinQuota :
    (s : MemKv) (tenant key value : Bytes)
    → WithinQuota s
    → Fits key value
    → WithinQuota (put s tenant key value).0
unfolding put
put-WithinQuota s tenant key value v h =
    elim (Bool-cases (ltb s.tenant_cap_bytes (new_used s tenant key value))) [
      | inl over ↦ rw over v
      | inr fits ↦ rw fits (store-WithinQuota s tenant key value v h (ground arith))
    ]

-- On a store within its quota, a put is refused exactly when the tenant's charge, less the cost of
-- an old entry under the key, plus 64 bytes, the key's and the value's lengths, exceeds the cap; a
-- refused put reports the charge, the new cost and the cap, and leaves the store as it was. The
-- store was within its quota, and key and value are shorter than 2^63 bytes with the overhead.
pub put_cases :
    (s : MemKv) (tenant key value : Bytes)
    → WithinQuota s
    → Fits key value
    → let old = cost_or_zero key (lookup (tenant, key) s.entries) in
      let new = 64 + length key + length value in
      ((s.tenant_cap_bytes < used s tenant - old + new)
        × (put s tenant key value
            ≡ (s, err (quota_exceeded (used s tenant) new s.tenant_cap_bytes))))
      ⊎ ((used s tenant - old + new ≤ s.tenant_cap_bytes)
          × (put s tenant key value ≡ (store s tenant key value, ok tt)))
unfolding put
put_cases s tenant key value v h =
    ground (arith, new_used-exact s tenant key value v h, cost_lem key value h)

-- After a put that succeeds the tenant reads the value under the key, and every other pair of
-- tenant and key reads what it read before.
pub get-put :
    (s : MemKv) (tenant key value t k : Bytes)
    → (put s tenant key value).1 ≡ ok tt
    → get (put s tenant key value).0 t k
      ≡ (if pair_beq (tenant, key) (t, k) then ok (some value) else get s t k)
unfolding put get store
get-put s tenant key value t k h =
    ground (arith, lookup-insert (tenant, key) (t, k) value s.entries)

-- No put of one tenant, accepted or refused, changes what another tenant reads or is charged.
pub put-isolates :
    (s : MemKv) (tenant key value other k : Bytes)
    → tenant ≢ other
    → (get (put s tenant key value).0 other k ≡ get s other k)
      × (used (put s tenant key value).0 other ≡ used s other)
unfolding put get store
put-isolates s tenant key value other k ne = ground (
  arith,
  bytes_beq_iff tenant other,
  lookup-insert (tenant, key) (other, k) value s.entries,
  lookup-insert tenant other (new_used s tenant key value) s.tenant_bytes,
)

-- A new store charges nobody.
pub new-WithinQuota : (cap : ℕ) → cap < 2 ^ 63 → WithinQuota (with_capacity_bytes cap)
unfolding lookup weigh
new-WithinQuota cap h = record { charged = λ _. refl; capped = λ _. omega arith; bounded = h }
