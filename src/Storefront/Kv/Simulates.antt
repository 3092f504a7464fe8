-- ===== src/Storefront/Kv/Simulates.antt =====
-- `PgKv` of examples/storefront/app/src/kv.rs behaves as the store in memory of
-- crates/core/src/kv.rs, as its comment promises.
use warpline.Base.{
  ℕ, ◌+◌, ◌-◌, ◌^◌, ◌≤◌, ◌<◌, ◌≡◌, refl, sym, ap, ◌∙◌, inl, inr, true, false, List, [], ◌∷◌, Option,
  arith, ltb, leb, if◌then◌else◌, lt→ltb, le→leb, Bool-cases, length, i64_max, Result, ok, err,
  Bytes, bytes_eq, pair_eq, lookup, insert,
}
use warpline.Base.Keyed.{Keyed, insert-Keyed}
use warpline.Kv.{KvError, quota_exceeded}
use warpline.Kv.MemKv.{MemKv, with_capacity_bytes, cost_or_zero, get, put, store}
use warpline.Kv.MemKv.Quota.{
  used, WithinQuota, Fits, put_cases, put-WithinQuota, new-WithinQuota, old-le-used,
}
use warpline.Pg.Schema.{CommitAnswer}
use warpline.Storefront.Kv.{
  HookKv, PgKv, new_pg_kv, used_by, old_of, bigint, KvNetwork, put_statements, commit_put, pg_put,
  pg_get,
}
use warpline.Storefront.Kv.Sums.{
  AllFit, used_by-weigh, old_of-lookup, insert-AllFit, above_cap-ltb, pg_cost_lem,
}

-- A database that carries every statement.
abbrev pub working : KvNetwork
working = record {
  begin = ok tt;
  lock = ok tt;
  sums = ok tt;
  upsert = ok tt;
  answer = CommitAnswer.committed;
}

-- The table is the entries of a store within its quota, each key once.
pub record Represents (p : PgKv) (s : MemKv) : Type 0 where
  pub same : p.hook_kv ≡ s.entries
  pub cap : p.tenant_cap_bytes ≡ s.tenant_cap_bytes
  pub within : WithinQuota s
  pub keyed : Keyed s.entries
  pub fit : AllFit s.entries

-- No overflow on the way to the check.
abbrev pub HasRoom : MemKv → Bytes → Bytes → Type 0
HasRoom s key value = s.tenant_cap_bytes + (64 + length key + length value) < 2 ^ 63

le→ltb : (a b : ℕ) → a ≤ b → ltb b a ≡ false
le→ltb a b h = ground arith

put_statements-over :
    (p : PgKv) (s : MemKv) (tenant key value : Bytes)
    → Represents p s
    → HasRoom s key value
    → let old = cost_or_zero key (lookup (tenant, key) s.entries) in
      let new = 64 + length key + length value in
      put_statements working p tenant key value ≡ (
        if ltb s.tenant_cap_bytes (used s tenant - old + new)
        then err (quota_exceeded (used s tenant) new s.tenant_cap_bytes)
        else ok (insert (tenant, key) value s.entries))
unfolding put_statements bigint
put_statements-over p s tenant key value r room =
    let old = cost_or_zero key (lookup (tenant, key) s.entries) in
    let total : used_by tenant p.hook_kv ≡ used s tenant =
      rw r.same (used_by-weigh tenant s.entries r.fit ∙ sym (r.within.charged tenant)) in
    let part : old_of tenant key p.hook_kv ≡ old =
      rw r.same (old_of-lookup tenant key s.entries r.keyed r.fit) in
    let below = r.within.capped tenant in
    let old_below = old-le-used s tenant key r.within in
    let costs = pg_cost_lem key value (omega arith) in
    let fits_total : leb (used s tenant) i64_max ≡ true = le→leb _ _ (omega arith) in
    let fits_part : leb old i64_max ≡ true = le→leb _ _ (omega arith) in
    let check =
      above_cap-ltb (used s tenant) old (64 + length key + length value) s.tenant_cap_bytes
        (omega arith) in
    rw (total, part, fits_total, fits_part, costs, r.cap, r.same, check)
      (elim (Bool-cases
        (ltb s.tenant_cap_bytes (used s tenant - old + (64 + length key + length value)))) [
          | inl over ↦ rw over refl
          | inr under ↦ rw under refl
        ])

-- One put gives the same answer and leaves stores that correspond.
pub pg_put-Represents :
    (p : PgKv) (s : MemKv) (tenant key value : Bytes)
    → Represents p s
    → HasRoom s key value
    → Represents (pg_put working p tenant key value).0 (put s tenant key value).0
      × ((pg_put working p tenant key value).1 ≡ (put s tenant key value).1)
unfolding commit_put store pg_put
pg_put-Represents p s tenant key value r room =
    let fits : Fits key value = omega arith in
    let checked = put_statements-over p s tenant key value r room in
    let after = put-WithinQuota s tenant key value r.within fits in
    elim (put_cases s tenant key value r.within fits) [
      | inl (over, refused) ↦
          let stopped : put_statements working p tenant key value
              ≡ err (
                  quota_exceeded (used s tenant) (64 + length key + length value)
                    s.tenant_cap_bytes) =
            checked ∙ rw (lt→ltb _ _ over) refl in
          rw (stopped, pg_put) (rw refused (r, refl))
      | inr (under, accepted) ↦
          let passed : put_statements working p tenant key value
              ≡ ok (insert (tenant, key) value s.entries) =
            checked ∙ rw (le→ltb _ _ under) refl in
          rw (passed, pg_put)
            (rw accepted (
              record {
                same = refl;
                cap = r.cap;
                within = rw accepted at after;
                keyed = insert-Keyed (tenant, key) value s.entries r.keyed;
                fit = insert-AllFit tenant key value s.entries fits r.fit;
              },
              refl,
            ))
    ]

-- What a guest's calls come to.
pub data KvCall : Type 0 where
  get_call : (tenant key : Bytes) → KvCall
  put_call : (tenant key value : Bytes) → KvCall

pub data KvAnswer : Type 0 where
  got : Result KvError (Option Bytes) → KvAnswer
  stored_as : Result KvError (Unit {0}) → KvAnswer

unfoldable pub pg_answers : PgKv → List KvCall → List KvAnswer
pg_answers p [] = []
pg_answers p (get_call tenant key ∷ calls) = got (pg_get (ok tt) p tenant key) ∷ pg_answers p calls
pg_answers p (put_call tenant key value ∷ calls) =
    let r = pg_put working p tenant key value in stored_as r.1 ∷ pg_answers r.0 calls

unfoldable pub mem_answers : MemKv → List KvCall → List KvAnswer
mem_answers s [] = []
mem_answers s (get_call tenant key ∷ calls) = got (get s tenant key) ∷ mem_answers s calls
mem_answers s (put_call tenant key value ∷ calls) =
    let r = put s tenant key value in stored_as r.1 ∷ mem_answers r.0 calls

-- Keys and values that fit beside a cap into 2^63 bytes.
abbrev pub AllRoom : ℕ → List KvCall → Type 0
AllRoom cap [] = Unit
AllRoom cap (get_call tenant key ∷ calls) = AllRoom cap calls
AllRoom cap (put_call tenant key value ∷ calls) =
    (cap + (64 + length key + length value) < 2 ^ 63) × AllRoom cap calls

put-cap :
    (s : MemKv) (tenant key value : Bytes)
    → (put s tenant key value).0.tenant_cap_bytes ≡ s.tenant_cap_bytes
unfolding put store
put-cap s tenant key value = ground arith

pg_answers_from :
    (cap : ℕ) (calls : List KvCall) (p : PgKv) (s : MemKv)
    → s.tenant_cap_bytes ≡ cap
    → Represents p s
    → AllRoom cap calls
    → pg_answers p calls ≡ mem_answers s calls
unfolding pg_answers mem_answers pg_get get
pg_answers_from cap [] p s c r room = refl
pg_answers_from cap (get_call tenant key ∷ calls) p s c r room =
    ap (λ (t : HookKv). got (ok (lookup (tenant, key) t)) ∷ pg_answers p calls) r.same
    ∙ ap (λ l. got (ok (lookup (tenant, key) s.entries)) ∷ l)
        (pg_answers_from cap calls p s c r room)
pg_answers_from cap (put_call tenant key value ∷ calls) p s c r room =
    let (next, answer) = pg_put-Represents p s tenant key value r (rw c room.0) in
    rw answer (
      ap (λ l. stored_as (put s tenant key value).1 ∷ l)
        (pg_answers_from cap calls (pg_put working p tenant key value).0 (put s tenant key value).0
          (put-cap s tenant key value ∙ c) next room.1))

-- The documented "semantics match the in-memory MemKv": over a database that carries every
-- statement, any sequence of gets and puts to a new store gives the answers of a new store in
-- memory with the same cap, refusals and what they report included. The cap and each key and value
-- with the overhead stay below 2^63 bytes together.
pub pg_answers-refines :
    (cap : ℕ) (calls : List KvCall)
    → cap < 2 ^ 63
    → AllRoom cap calls
    → pg_answers (new_pg_kv cap) calls ≡ mem_answers (with_capacity_bytes cap) calls
unfolding new_pg_kv
pg_answers-refines cap calls below room =
    pg_answers_from cap calls (new_pg_kv cap) (with_capacity_bytes cap) refl
      (record {
        same = refl;
        cap = omega arith;
        within = new-WithinQuota cap below;
        keyed = tt;
        fit = tt;
      })
      room
