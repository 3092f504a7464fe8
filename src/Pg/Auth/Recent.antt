-- ===== src/Pg/Auth/Recent.antt =====
-- How old an answer of `authenticate` of crates/core/src/pg/auth.rs can be, over any sequence of
-- calls: the abstract authenticator asks the database at one recent moment.
use warpline.Base.{
  ℕ, zero, suc, ◌+◌, ◌-◌, ◌*◌, ◌≤◌, max, ◌≡◌, refl, ◌∙◌, inl, inr, List, [], ◌∷◌, Option, none,
  some, arith, ltb, ◌==◌, Bool-cases, Option-cases, take, All, Result, ok, err, Bytes, bytes_beq,
  bytes_beq_iff, bytes_eq, pair_eq, lookup, remove,
}
use mathlib.Core.Path.{subst}
use warpline.Registry.Lru.{Lru, promote}
use warpline.Pg.Schema.{SqlError, Database}
use warpline.Pg.Auth.{
  AuthOutcome, AuthError, AuthRow, Cached, select_key, cached_of, outcome_for, stale_window,
  min_stale_window, cache_cap, Clock, Authenticator, new_authenticator, hit_of, ask, use_hit,
  authenticate,
}

module _ {V : Type 0} (P : Bytes × V → Type 0) where
  pub remove-All : (k : Bytes) (l : List (Bytes × V)) → All P l → All P (remove k l)
  unfolding remove
  remove-All k [] h = tt
  remove-All k ((j, v) ∷ l) h = elim (Bool-cases (bytes_beq j k)) [
    | inl same ↦ rw same (remove-All k l h.1)
    | inr other ↦ rw other (h.0, remove-All k l h.1)
  ]

  pub take-All : (n : ℕ) (l : List (Bytes × V)) → All P l → All P (take n l)
  take-All zero l h = tt
  take-All (suc n) [] h = tt
  take-All (suc n) (e ∷ l) h = (h.0, take-All n l h.1)

  -- What a lookup finds has the property.
  pub lookup-All :
      (k : Bytes) (v : V) (l : List (Bytes × V)) → All P l → lookup k l ≡ some v → P (k, v)
  unfolding lookup
  lookup-All k v [] h e = absurd (ground arith)
  lookup-All k v ((j, w) ∷ l) h e = elim (Bool-cases (bytes_beq j k)) [
    | inl same ↦ let eq : (j, w) ≡ (k, v) = ground (arith, bytes_beq_iff j k) in subst P eq h.0
    | inr other ↦ lookup-All k v l h.1 (ground arith)
  ]

  pub promote-All :
      (k : Bytes) (o : Option V) (l : List (Bytes × V))
      → All P l
      → lookup k l ≡ o
      → All P (promote k o l)
  promote-All k none l h e = h
  promote-All k (some v) l h e = (lookup-All k v l h e, remove-All k l h)

  module _ (c : Lru V) where
    pub get-All : (k : Bytes) (s : c.State) → All P (c.entries s) → All P (c.entries (c.get k s).0)
    get-All k s h =
        rw (c.entries-get k s) (promote-All k (lookup k (c.entries s)) (c.entries s) h refl)

    pub put-All :
        (k : Bytes) (v : V) (s : c.State)
        → All P (c.entries s)
        → P (k, v)
        → All P (c.entries (c.put k v s).0)
    put-All k v s h p = elim (Option-cases (lookup k (c.entries s))) [
      | inl none_held ↦
          rw (c.entries-put_new k v s none_held)
            (take-All (c.capacity s) ((k, v) ∷ c.entries s) (p, h))
      | inr (w, old) ↦ rw (c.entries-put_old k v w s old) (p, remove-All k (c.entries s) h)
    ]

-- One call after another, each with its readings of the clock and what the database would say.
pub record Call : Type 0 where
  pub clock : Clock
  pub answer : Result SqlError (Option AuthRow)
  pub tenant : Bytes
  pub token : Bytes

module _ (c : Lru (ℕ × Cached)) (digest : Bytes → Bytes) where
  unfoldable pub serve : Authenticator c digest → List Call → List (Result AuthError AuthOutcome)
  serve a [] = []
  serve a (q ∷ qs) =
      let r = authenticate c digest a q.clock q.answer q.tenant (some q.token) in r.1 ∷ serve r.0 qs

-- The database over time, and how long a row may be on its way into the cache.
module _ (at_time : ℕ → Database) (delay : ℕ) where
  -- An entry is what the database said at some moment, at most `delay` before its time stamp.
  abbrev pub Backed : Bytes × (ℕ × Cached) → Type 0
  Backed (key, (at, cached)) =
      (t : ℕ) × (at ≤ t + delay) × (cached ≡ cached_of (select_key (at_time t) key))

  -- An answer of the database is what it held at some moment, at most `delay` before it is stored.
  abbrev pub Answered : Clock → Bytes → Result SqlError (Option AuthRow) → Type 0
  Answered clock key (err e) = Unit
  Answered clock key (ok row) =
      (t : ℕ) × (clock.stored ≤ t + delay) × (row ≡ select_key (at_time t) key)

  -- An outcome is what the database said at some moment of the window.
  abbrev pub IsRecent : ℕ → Clock → Bytes → Bytes → Result AuthError AuthOutcome → Type 0
  IsRecent ttl clock key tenant (err e) = Unit
  IsRecent ttl clock key tenant (ok o) =
      (t : ℕ) × (clock.first ≤ t + delay + max (10 * ttl) 300_000_000_000)
      × (o ≡ outcome_for (cached_of (select_key (at_time t) key)) tenant)

  module _ (c : Lru (ℕ × Cached)) (digest : Bytes → Bytes) where
    -- The call's answer is recent, and so is the cache that it leaves; the TTL stays.
    abbrev pub Kept :
        Clock
        → Bytes
        → Bytes
        → Authenticator c digest
        → Authenticator c digest × Result AuthError AuthOutcome
        → Type 0
    Kept clock key tenant a r =
        All Backed (c.entries r.0.cache) × IsRecent a.ttl clock key tenant r.1 × (r.0.ttl ≡ a.ttl)

    abbrev Usable : ℕ → Clock → Bytes → Option Cached → Type 0
    Usable ttl clock key none = Unit
    Usable ttl clock key (some cached) =
        (tenant : Bytes) → IsRecent ttl clock key tenant (ok (outcome_for cached tenant))

    ask-Kept :
        (a : Authenticator c digest) (clock : Clock) (answer : Result SqlError (Option AuthRow))
        (tenant key : Bytes) (old : Option Cached)
        → All Backed (c.entries a.cache)
        → Answered clock key answer
        → clock.first ≤ clock.stored
        → Usable a.ttl clock key old
        → Kept clock key tenant a (ask c digest a clock answer tenant key old)
    unfolding ask
    ask-Kept a clock (err e) tenant key none h k le u = (h, tt, refl)
    ask-Kept a clock (err e) tenant key (some cached) h k le u = (h, u tenant, refl)
    ask-Kept a clock (ok row) tenant key old h (t, near, said) le u =
        elim (Bool-cases (a.ttl == 0)) [
          | inl zero_ttl ↦ rw zero_ttl (h, (t, omega arith, rw said refl), refl)
          | inr cached ↦ rw cached (
            put-All Backed c key (clock.stored, cached_of row) a.cache h (t, near, rw said refl),
            (t, omega arith, rw said refl),
            refl,
          )
        ]

    use_hit-Kept :
        (a : Authenticator c digest) (clock : Clock) (answer : Result SqlError (Option AuthRow))
        (tenant key : Bytes) (entry : Option (ℕ × Cached))
        → All Backed (c.entries a.cache)
        → Answered clock key answer
        → clock.first ≤ clock.second
        → clock.second ≤ clock.stored
        → ((at : ℕ) (cached : Cached) → entry ≡ some (at, cached) → Backed (key, (at, cached)))
        → Kept clock key tenant a
            (use_hit c digest a clock answer tenant key (hit_of c digest a.ttl clock entry))
    unfolding use_hit hit_of stale_window
    use_hit-Kept a clock answer tenant key none h k le le' b =
        ask-Kept a clock answer tenant key none h k (omega arith) tt
    use_hit-Kept a clock answer tenant key (some (at, cached)) h k le le' b =
        let (t, near, said) = b at cached refl in
        elim (Bool-cases (ltb (clock.first - at) a.ttl)) [
          | inl y ↦ rw y (h, (t, ground arith, rw said refl), refl)
          | inr n ↦
              rw n
                (elim (Bool-cases (ltb (clock.second - at) (max (a.ttl * 10) min_stale_window))) [
                  | inl y ↦ rw y (
                      ask-Kept a clock answer tenant key (some cached) h k (omega arith)
                        (λ tenant'. (t, ground arith, rw said refl)))
                  | inr m ↦ rw m (ask-Kept a clock answer tenant key none h k (omega arith) tt)
                ])
        ]

    pub authenticate-Kept :
        (a : Authenticator c digest) (clock : Clock) (answer : Result SqlError (Option AuthRow))
        (tenant token : Bytes)
        → All Backed (c.entries a.cache)
        → Answered clock (digest token) answer
        → clock.first ≤ clock.second
        → clock.second ≤ clock.stored
        → Kept clock
            (digest token)
            tenant
            a
            (authenticate c digest a clock answer tenant (some token))
    unfolding authenticate
    authenticate-Kept a clock answer tenant token h k le le' = elim (Bool-cases (a.ttl == 0)) [
      | inl zero_ttl ↦
          rw zero_ttl (ask-Kept a clock answer tenant (digest token) none h k (omega arith) tt)
      | inr cached ↦
          rw (cached, c.get-lookup (digest token) a.cache)
            (use_hit-Kept (record a { cache = (c.get (digest token) a.cache).0 }) clock answer
              tenant (digest token) (lookup (digest token) (c.entries a.cache))
              (get-All Backed c (digest token) a.cache h) k le le'
              (λ at held e. lookup-All Backed (digest token) (at, held) (c.entries a.cache) h e))
    ]

    -- What is asked of the calls: the database answers the truth, and the clock does not run back.
    abbrev pub Fair : List Call → Type 0
    Fair [] = Unit
    Fair (q ∷ qs) =
        Answered q.clock (digest q.token) q.answer
        × (q.clock.first ≤ q.clock.second)
        × (q.clock.second ≤ q.clock.stored)
        × Fair qs

    abbrev pub AllRecent : ℕ → List Call → List (Result AuthError AuthOutcome) → Type 0
    AllRecent ttl [] [] = Unit
    AllRecent ttl [] (r ∷ rs) = ⊥
    AllRecent ttl (q ∷ qs) [] = ⊥
    AllRecent ttl (q ∷ qs) (r ∷ rs) =
        IsRecent ttl q.clock (digest q.token) q.tenant r × AllRecent ttl qs rs

    serve_from-AllRecent :
        (ttl : ℕ) (qs : List Call) (a : Authenticator c digest)
        → a.ttl ≡ ttl
        → All Backed (c.entries a.cache)
        → Fair qs
        → AllRecent ttl qs (serve c digest a qs)
    unfolding serve
    serve_from-AllRecent ttl [] a same h fair = tt
    serve_from-AllRecent ttl (q ∷ qs) a same h (said, le, le', fair) =
        let (kept, recent, ttl_kept) =
          authenticate-Kept a q.clock q.answer q.tenant q.token h said le le' in
        (
          subst
              (λ n.
                IsRecent n q.clock (digest q.token) q.tenant
                  (authenticate c digest a q.clock q.answer q.tenant (some q.token)).1)
              same recent,
          serve_from-AllRecent ttl qs
              (authenticate c digest a q.clock q.answer q.tenant (some q.token)).0 (ttl_kept ∙ same)
              kept fair,
        )

    -- Any sequence of calls with a token to a new authenticator refines a database that is read at
    -- some recent moment: each outcome is what the join said of the token's key at a moment at most
    -- ten TTLs or five minutes, whichever is more, and the delay of a row on its way into the cache
    -- before the call. The database may fail, but each answer it gives is what it held at most that
    -- delay before the answer is stored, and the clock does not run back during a call.
    pub serve-AllRecent :
        (ttl : ℕ) (qs : List Call)
        → Fair qs
        → AllRecent ttl qs (serve c digest (new_authenticator c digest ttl) qs)
    unfolding new_authenticator
    serve-AllRecent ttl qs fair =
        serve_from-AllRecent ttl qs (new_authenticator c digest ttl) refl
          (rw (c.entries-new cache_cap) tt) fair
