-- ===== src/Pg/Auth/Cases.antt =====
-- The branches of `authenticate` of crates/core/src/pg/auth.rs.
use warpline.Base.{
  ℕ, ◌+◌, ◌-◌, ◌*◌, ◌≤◌, ◌<◌, max, ◌≡◌, refl, ◌⊎◌, inl, inr, Option, none, some, arith, ltb, ◌==◌,
  if◌then◌else◌, Bool-cases, Result, ok, err, Bytes, bytes_eq, pair_eq, lookup,
}
use warpline.Registry.Lru.{Lru}
use warpline.Pg.Schema.{SqlError}
use warpline.Pg.Auth.{
  AuthOutcome, missing_or_unknown_key, AuthError, db, AuthRow, Cached, cached_of, outcome_for,
  stale_window, min_stale_window, Clock, Authenticator, hit_of, ask, use_hit, authenticate,
}

-- An entry within its TTL, and what stands in for the database.
abbrev pub IsFresh : ℕ → Clock → Option (ℕ × Cached) → Cached → Type 0
IsFresh ttl clock none cached = ⊥
IsFresh ttl clock (some (at, held)) cached = (clock.first < at + ttl) × (held ≡ cached)

abbrev pub IsPast : ℕ → Clock → Option (ℕ × Cached) → Type 0
IsPast ttl clock none = Unit
IsPast ttl clock (some (at, held)) = at + ttl ≤ clock.first

abbrev pub IsServed : ℕ → Clock → Option (ℕ × Cached) → Cached → Type 0
IsServed ttl clock none cached = ⊥
IsServed ttl clock (some (at, held)) cached =
    ((clock.second < at + 10 * ttl) ⊎ (clock.second < at + 300_000_000_000)) × (held ≡ cached)

abbrev pub IsUseless : ℕ → Clock → Option (ℕ × Cached) → Type 0
IsUseless ttl clock none = Unit
IsUseless ttl clock (some (at, held)) =
    (at + 10 * ttl ≤ clock.second) × (at + 300_000_000_000 ≤ clock.second)

-- Which of its four answers a call gives, by what the cache holds.
abbrev pub Answers :
    ℕ
    → Clock
    → Option (ℕ × Cached)
    → Result SqlError (Option AuthRow)
    → Bytes
    → Result AuthError AuthOutcome
    → Type 0
Answers ttl clock entry (ok row) tenant result =
    ((cached : Cached) × IsFresh ttl clock entry cached × (result ≡ ok (outcome_for cached tenant)))
    ⊎ (IsPast ttl clock entry × (result ≡ ok (outcome_for (cached_of row) tenant)))
Answers ttl clock entry (err e) tenant result =
    ((cached : Cached) × IsFresh ttl clock entry cached × (result ≡ ok (outcome_for cached tenant)))
    ⊎ ((cached : Cached) × IsPast ttl clock entry
        × IsServed ttl clock entry cached
        × (result ≡ ok (outcome_for cached tenant)))
    ⊎ (IsPast ttl clock entry × IsUseless ttl clock entry × (result ≡ err (db e)))

module _ (c : Lru (ℕ × Cached)) (digest : Bytes → Bytes) where
  -- What the cache holds for a token; nothing where the TTL is zero.
  abbrev pub held : Authenticator c digest → Bytes → Option (ℕ × Cached)
  held a token = if a.ttl == 0 then none else lookup (digest token) (c.entries a.cache)

  -- The answer once the entry is known.
  pub use_hit-Answers :
      (a b : Authenticator c digest) (clock : Clock) (entry : Option (ℕ × Cached))
      (answer : Result SqlError (Option AuthRow)) (tenant key : Bytes)
      → 0 < a.ttl
      → Answers a.ttl clock entry answer tenant
          (use_hit c digest b clock answer tenant key (hit_of c digest a.ttl clock entry)).1
  unfolding hit_of use_hit ask stale_window
  use_hit-Answers a b clock none (ok row) tenant key h = inr (tt, refl)
  use_hit-Answers a b clock none (err e) tenant key h = inr (inr (tt, tt, refl))
  use_hit-Answers a b clock (some (at, cached)) (ok row) tenant key h =
      elim (Bool-cases (ltb (clock.first - at) a.ttl)) [
        | inl y ↦ rw y (inl (cached, (ground arith, refl), refl))
        | inr n ↦
            rw n (elim (Bool-cases (ltb (clock.second - at) (max (a.ttl * 10) min_stale_window))) [
              | inl y ↦ rw y (inr (ground arith, refl))
              | inr m ↦ rw m (inr (ground arith, refl))
            ])
      ]
  use_hit-Answers a b clock (some (at, cached)) (err e) tenant key h =
      elim (Bool-cases (ltb (clock.first - at) a.ttl)) [
        | inl y ↦ rw y (inl (cached, (ground arith, refl), refl))
        | inr n ↦
            rw n (elim (Bool-cases (ltb (clock.second - at) (max (a.ttl * 10) min_stale_window))) [
              | inl y ↦ rw y (inr (inl (cached, ground arith, (ground arith, refl), refl)))
              | inr m ↦ rw m (inr (inr (ground arith, ground arith, refl)))
            ])
      ]

  no_cache :
      (a : Authenticator c digest) (clock : Clock) (answer : Result SqlError (Option AuthRow))
      (tenant key : Bytes)
      → Answers a.ttl clock none answer tenant (ask c digest a clock answer tenant key none).1
  unfolding ask
  no_cache a clock (ok row) tenant key = inr (tt, refl)
  no_cache a clock (err e) tenant key = inr (inr (tt, tt, refl))

  -- A token is answered from its entry while that is younger than the TTL, whatever the database
  -- would say; otherwise by the database. If that fails, the entry stands in while it is younger
  -- than ten times the TTL or than five minutes; without such an entry the failure is reported. A
  -- TTL of zero leaves the cache out. Without a token the answer is that there is no key.
  pub authenticate_cases :
      (a : Authenticator c digest) (clock : Clock) (answer : Result SqlError (Option AuthRow))
      (tenant token : Bytes)
      → Answers a.ttl clock
          (held a token)
          answer
          tenant
          (authenticate c digest a clock answer tenant (some token)).1
        × ((authenticate c digest a clock answer tenant none).1 ≡ ok missing_or_unknown_key)
  unfolding authenticate
  authenticate_cases a clock answer tenant token = elim (Bool-cases (a.ttl == 0)) [
    | inl zero_ttl ↦ rw zero_ttl (no_cache a clock answer tenant (digest token), refl)
    | inr cached ↦
        rw (cached, c.get-lookup (digest token) a.cache)
          (
            use_hit-Answers a (record a { cache = (c.get (digest token) a.cache).0 }) clock
                (lookup (digest token) (c.entries a.cache)) answer tenant (digest token)
                (ground arith),
            refl,
          )
  ]
