-- ===== src/Sandbox/Context.antt =====
-- `HostCtx` of crates/core/src/types.rs and the host functions `kv` and `log` that
-- crates/core/src/sandbox.rs implements for it. A host function gives the context that it leaves,
-- also where it traps. What goes to `tracing` is kept in the context, newest first.
pub mod Quotas
pub mod LogBytes
use warpline.Base.{
  ℕ, zero, suc, ◌+◌, ◌-◌, ◌*◌, ◌/◌, ◌%◌, ◌^◌, ◌≤◌, ◌<◌, min, max, ◌≡◌, refl, sym, ap, ◌∙◌, ◌≢◌, ◌↔◌,
  ◌⊎◌, inl, inr, Bool, true, false, not, ◌&&◌, ◌||◌, List, [], ◌∷◌, ◌++◌, map, Option, none, some,
  arith, ltb, leb, ◌==◌, if◌then◌else◌, ltb→lt, lt→ltb, leb→le, le→leb, ==_iff, Bool-cases,
  Option-cases, Bool-eq_of_iff, length, take, drop, replicate, length-append, length-take,
  take-append-drop, all, any, All, keep, sum_by, length-keep-le, word_mod, word_max, i64_max,
  wrapping_add, wrapping_sub, wrapping_mul, saturating_sub, saturating_add, ℤ, pos, negsuc,
  in_range, i64_or_max, Result, ok, err, ◌>>=◌, ◌>>◌, map_err, ok_or, ensure, is_ok, Result-cases,
  Eq, Bytes, bytes_beq, bytes_beq_iff, bytes_eq, pair_beq, pair_beq_iff, pair_eq, lookup, insert,
  remove, lookup-insert, lookup-remove, lookup-insert_self, weigh, weight_at, weigh-insert,
  weight_at-le,
}
use warpline.Base.Text.{codes}
use warpline.Kv.{KvStore, KvError}
use warpline.Types.Limiter.{TenantLimiter, new_limiter}
use warpline.Sandbox.Text.{truncate_utf8}

abbrev pub max_kv_key_bytes : ℕ
max_kv_key_bytes = 512

abbrev pub max_kv_value_bytes : ℕ
max_kv_value_bytes = 1024 * 1024

abbrev pub max_kv_puts_per_invocation : ℕ
max_kv_puts_per_invocation = 1000

abbrev pub max_kv_put_bytes_per_invocation : ℕ
max_kv_put_bytes_per_invocation = 8 * 1024 * 1024

abbrev pub max_log_msg_bytes : ℕ
max_log_msg_bytes = 4 * 1024

abbrev pub max_log_lines_per_invocation : ℕ
max_log_lines_per_invocation = 100

abbrev pub max_log_bytes_per_invocation : ℕ
max_log_bytes_per_invocation = 64 * 1024

-- The errors that trap the guest: the `bail!`s, and a backend's failure.
pub data Trap : Type 0 where
  key_cap value_cap put_count_cap put_bytes_cap : Trap
  kv_failed : KvError → Trap

pub data Level : Type 0 where
  trace debug info warn error : Level

pub data LogRecord : Type 0 where
  guest_log : Level → (tenant func msg : Bytes) → LogRecord
  suppressed : (tenant func : Bytes) → LogRecord

abbrev to_ascii_lowercase : ℕ → ℕ
to_ascii_lowercase c = if leb b'A' c && leb c b'Z' then c + 32 else c

-- The match on `level.to_ascii_lowercase()`.
unfoldable pub level_of : Bytes → Level
level_of level =
    let l = map to_ascii_lowercase level in
    if bytes_beq l (codes "trace")
    then trace
    else if bytes_beq l (codes "debug")
    then debug
    else if bytes_beq l (codes "warn") || bytes_beq l (codes "warning")
    then warn
    else if bytes_beq l (codes "error")
    then error
    else info

module _ (store : KvStore) where
  pub record HostCtx : Type 0 where
    pub tenant_id : Bytes
    pub fn_name : Bytes
    pub kv : store.State
    pub allowed_hosts : List Bytes
    pub allow_private_egress : Bool
    pub limiter : TenantLimiter
    pub kv_put_count : ℕ
    pub kv_put_bytes : ℕ
    pub log_line_count : ℕ
    pub log_bytes : ℕ
    pub log_suppressed_notified : Bool
    pub logged : List LogRecord

  -- `HostCtx::new`.
  unfoldable pub new_ctx : Bytes → Bytes → store.State → List Bytes → Bool → ℕ → HostCtx
  new_ctx tenant func kv hosts private_egress mem_cap = record {
    tenant_id = tenant;
    fn_name = func;
    kv = kv;
    allowed_hosts = hosts;
    allow_private_egress = private_egress;
    limiter = new_limiter mem_cap;
    kv_put_count = 0;
    kv_put_bytes = 0;
    log_line_count = 0;
    log_bytes = 0;
    log_suppressed_notified = false;
    logged = [];
  }

  -- `kv::Host::get`.
  unfoldable pub kv_get : HostCtx → Bytes → HostCtx × Result Trap (Option Bytes)
  kv_get ctx key =
      if ltb max_kv_key_bytes (length key)
      then (ctx, err key_cap)
      else (ctx, map_err kv_failed (store.get ctx.kv ctx.tenant_id key))

  -- The backend's put, once every cap is passed.
  unfoldable pub backend_put : HostCtx → Bytes → Bytes → HostCtx × Result Trap (Unit {0})
  backend_put ctx key value =
      let r = store.put ctx.kv ctx.tenant_id key value in
      (record ctx { kv = r.0 }, map_err kv_failed r.1)

  -- `kv::Host::put`: the two counters stay raised where the put is then refused.
  unfoldable pub kv_put : HostCtx → Bytes → Bytes → HostCtx × Result Trap (Unit {0})
  unfolding backend_put
  kv_put ctx key value =
      let counted : HostCtx = record ctx { kv_put_count = wrapping_add ctx.kv_put_count 1 } in
      let charged : HostCtx = record counted {
        kv_put_bytes = wrapping_add counted.kv_put_bytes (wrapping_add (length key) (length value));
      } in
      if ltb max_kv_key_bytes (length key)
      then (ctx, err key_cap)
      else if ltb max_kv_value_bytes (length value)
      then (ctx, err value_cap)
      else if ltb max_kv_puts_per_invocation counted.kv_put_count
      then (counted, err put_count_cap)
      else if ltb max_kv_put_bytes_per_invocation charged.kv_put_bytes
      then (charged, err put_bytes_cap)
      else backend_put charged key value

  unfoldable pub suppress : HostCtx → HostCtx
  suppress ctx = if ctx.log_suppressed_notified then ctx else record ctx {
    log_suppressed_notified = true;
    logged = suppressed ctx.tenant_id ctx.fn_name ∷ ctx.logged;
  }

  -- `log::Host::emit`, which never fails.
  unfoldable pub emit : HostCtx → Bytes → Bytes → HostCtx
  unfolding suppress
  emit ctx level msg =
      let cut = truncate_utf8 msg max_log_msg_bytes in
      if leb max_log_lines_per_invocation ctx.log_line_count
        || leb max_log_bytes_per_invocation ctx.log_bytes
      then suppress ctx
      else record ctx {
        log_line_count = wrapping_add ctx.log_line_count 1;
        log_bytes = wrapping_add ctx.log_bytes (length cut);
        logged = guest_log (level_of level) ctx.tenant_id ctx.fn_name cut ∷ ctx.logged;
      }

  -- What a guest may call, in any order.
  pub data HostCall : Type 0 where
    get : (key : Bytes) → HostCall
    put : (key value : Bytes) → HostCall
    log : (level msg : Bytes) → HostCall

  abbrev outcome {ℓ} : {A : Type ℓ} → Result Trap A → Option Trap
  outcome (ok a) = none
  outcome (err t) = some t

  unfoldable pub host_call : HostCtx → HostCall → HostCtx × Option Trap
  host_call ctx (get key) = let r = kv_get ctx key in (r.0, outcome r.1)
  host_call ctx (put key value) = let r = kv_put ctx key value in (r.0, outcome r.1)
  host_call ctx (log level msg) = (emit ctx level msg, none)

  -- The calls of one invocation, up to the first that traps.
  unfoldable pub host_calls : HostCtx → List HostCall → HostCtx
  host_calls ctx [] = ctx
  host_calls ctx (c ∷ cs) =
      let (after, trap) = host_call ctx c in
      elim trap [ none ↦ host_calls after cs | some t ↦ after ]
