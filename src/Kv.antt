-- ===== src/Kv.antt =====
-- crates/core/src/kv.rs: the interface that guests' `kv` calls go to, and the in-process store.
pub mod MemKv
use warpline.Base.{
  ℕ, zero, suc, ◌+◌, ◌-◌, ◌*◌, ◌/◌, ◌%◌, ◌^◌, ◌≤◌, ◌<◌, min, max, ◌≡◌, refl, sym, ap, ◌∙◌, ◌≢◌, ◌↔◌,
  ◌⊎◌, inl, inr, Bool, true, false, not, ◌&&◌, ◌||◌, List, [], ◌∷◌, ◌++◌, map, Option, none, some,
  arith, ltb, leb, ◌==◌, if◌then◌else◌, ltb→lt, lt→ltb, leb→le, le→leb, ==_iff, Bool-cases,
  Option-cases, Bool-eq_of_iff, length, take, drop, replicate, length-append, length-take,
  take-append-drop, all, any, All, keep, sum_by, length-keep-le, word_mod, word_max, i64_max,
  wrapping_add, wrapping_sub, wrapping_mul, saturating_sub, saturating_add, ℤ, pos, negsuc,
  in_range, i64_or_max, Result, ok, err, ◌>>=◌, ◌>>◌, map_err, ok_or, ensure, is_ok, Result-cases,
  Eq, Bytes, bytes_beq, bytes_beq_iff, bytes_eq, pair_beq, pair_beq_iff, pair_eq, lookup, insert,
  remove, lookup-insert, lookup-remove, lookup-insert_self, weigh, weight_at, weigh-insert,
  weight_at-le,
}

pub data KvError : Type 0 where
  quota_exceeded : (used_bytes added_bytes cap_bytes : ℕ) → KvError
  backend : Bytes → KvError

-- The trait `KvStore`, over the state behind `&self`; `put` gives the state that it leaves also
-- where it fails.
pub record KvStore : Type 1 where
  pub State : Type 0
  pub get : State → Bytes → Bytes → Result KvError (Option Bytes)
  pub put : State → Bytes → Bytes → Bytes → State × Result KvError (Unit {0})
