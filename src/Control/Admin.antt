-- ===== src/Control/Admin.antt =====
-- `admin_create_tenant` of crates/control/src/lib.rs.
pub mod Guarded
use warpline.Base.{
  ℕ, zero, suc, ◌+◌, ◌-◌, ◌*◌, ◌/◌, ◌%◌, ◌^◌, ◌≤◌, ◌<◌, min, max, ◌≡◌, refl, sym, ap, ◌∙◌, ◌≢◌, ◌↔◌,
  ◌⊎◌, inl, inr, Bool, true, false, not, ◌&&◌, ◌||◌, List, [], ◌∷◌, ◌++◌, map, Option, none, some,
  arith, ltb, leb, ◌==◌, if◌then◌else◌, ltb→lt, lt→ltb, leb→le, le→leb, ==_iff, Bool-cases,
  Option-cases, Bool-eq_of_iff, length, take, drop, replicate, length-append, length-take,
  take-append-drop, all, any, All, keep, sum_by, length-keep-le, word_mod, word_max, i64_max,
  wrapping_add, wrapping_sub, wrapping_mul, saturating_sub, saturating_add, ℤ, pos, negsuc,
  in_range, i64_or_max, Result, ok, err, ◌>>=◌, ◌>>◌, map_err, ok_or, ensure, is_ok, Result-cases,
  Eq, Bytes, bytes_beq, bytes_beq_iff, bytes_eq, pair_beq, pair_beq_iff, pair_eq, lookup, insert,
  remove, lookup-insert, lookup-remove, lookup-insert_self, weigh, weight_at, weigh-insert,
  weight_at-le,
}
use warpline.Types.Names.{valid_name}
use warpline.Types.Limits.{HostParser, ConfigError, validate_cpu_budget_ms, validate_mem_cap_bytes}
use warpline.Pg.Schema.{SqlError, Uuid, Database, as_u64}
use warpline.Pg.Admin.{
  AdminError, invalid_name, config, IssuedKey, LimitsPatch, Network, patch_tenant,
}
use warpline.Front.{Reply, reply, bearer_from}
use warpline.Control.Token.{constant_time_eq}

-- What serde reads from the body.
pub record AdminConfigBody : Type 0 where
  pub allowed_hosts : Option (List Bytes)
  pub cpu_budget_ms : Option ℤ
  pub mem_cap_bytes : Option ℤ

abbrev pub default_body : AdminConfigBody
default_body = record { allowed_hosts = none; cpu_budget_ms = none; mem_cap_bytes = none }

unfoldable pub is_admin : Bytes → Option Bytes → Bool
is_admin expected_token none = false
is_admin expected_token (some p) = constant_time_eq p expected_token

-- A limit that the body gives, checked as an i64 and then cast to a word.
unfoldable pub checked_field :
    (ℤ → Result ConfigError (Unit {0})) → Option ℤ → Result ConfigError (Option ℕ)
checked_field validate none = ok none
checked_field validate (some v) = do validate v; ok (some (as_u64 v))

unfoldable pub patch_of_body : AdminConfigBody → Result ConfigError LimitsPatch
patch_of_body cfg = do
  cpu ← checked_field validate_cpu_budget_ms cfg.cpu_budget_ms
  mem ← checked_field validate_mem_cap_bytes cfg.mem_cap_bytes
  ok (record { allowed_hosts = cfg.allowed_hosts; cpu_budget_ms = cpu; mem_cap_bytes = mem })

unfoldable pub admin_error : AdminError → Reply
admin_error (config e) = reply 400 "invalid limits"
admin_error invalid_name = reply 400 "invalid tenant name"
admin_error e = reply 500 "internal error"

-- `serde_json::from_slice`, and what `patch_tenant` takes from other crates.
module _ (from_slice : Bytes → Option AdminConfigBody) (parse : HostParser)
    (digest hex_encode : Bytes → Bytes) where
  unfoldable pub read_body_config : Bytes → Option AdminConfigBody
  read_body_config [] = some default_body
  read_body_config (b ∷ body) = from_slice (b ∷ body)

  unfoldable pub apply_config :
      Network
      → Uuid
      → Result Bytes Bytes
      → Database
      → Bytes
      → AdminConfigBody
      → Database × Result Reply IssuedKey
  apply_config net new_id random tables tenant cfg = elim (patch_of_body cfg) [
    | err e ↦ (tables, err (reply 400 "invalid limits"))
    | ok patch ↦
        let r = patch_tenant parse digest hex_encode net new_id random tables tenant patch in
        (r.0, map_err admin_error r.1)
  ]

  -- `has_database` is `state.auth.is_some()`. A success is 201 with the key.
  unfoldable pub admin_create_tenant :
      Option Bytes
      → Bool
      → Network
      → Uuid
      → Result Bytes Bytes
      → Database
      → Bytes
      → Option Bytes
      → Bytes
      → Database × Result Reply IssuedKey
  admin_create_tenant none has_database net new_id random tables tenant header body =
      (tables, err (reply 404 ""))
  admin_create_tenant (some expected_token) has_database net new_id random tables tenant header
        body =
      if not (is_admin expected_token (bearer_from header))
      then (tables, err (reply 401 "unauthorized"))
      else if not (valid_name tenant)
      then (tables, err (reply 400 "invalid tenant name"))
      else if not has_database
      then (tables, err (reply 503 "admin API requires DATABASE_URL"))
      else elim (read_body_config body) [
        | none ↦ (tables, err (reply 400 "invalid json body"))
        | some cfg ↦ apply_config net new_id random tables tenant cfg
      ]
