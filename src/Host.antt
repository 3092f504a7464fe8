-- ===== src/Host.antt =====
-- `invoke_handler` of crates/host/src/lib.rs: from the request's path and header to the answer. The
-- histogram of durations is left out; the counter of outcomes is a list of its labels, newest first.
pub mod Answers
use warpline.Base.{
  ℕ, zero, suc, ◌+◌, ◌-◌, ◌*◌, ◌/◌, ◌%◌, ◌^◌, ◌≤◌, ◌<◌, min, max, ◌≡◌, refl, sym, ap, ◌∙◌, ◌≢◌, ◌↔◌,
  ◌⊎◌, inl, inr, Bool, true, false, not, ◌&&◌, ◌||◌, List, [], ◌∷◌, ◌++◌, map, Option, none, some,
  arith, ltb, leb, ◌==◌, if◌then◌else◌, ltb→lt, lt→ltb, leb→le, le→leb, ==_iff, Bool-cases,
  Option-cases, Bool-eq_of_iff, length, take, drop, replicate, length-append, length-take,
  take-append-drop, all, any, All, keep, sum_by, length-keep-le, word_mod, word_max, i64_max,
  wrapping_add, wrapping_sub, wrapping_mul, saturating_sub, saturating_add, ℤ, pos, negsuc,
  in_range, i64_or_max, Result, ok, err, ◌>>=◌, ◌>>◌, map_err, ok_or, ensure, is_ok, Result-cases,
  Eq, Bytes, bytes_beq, bytes_beq_iff, bytes_eq, pair_beq, pair_beq_iff, pair_eq, lookup, insert,
  remove, lookup-insert, lookup-remove, lookup-insert_self, weigh, weight_at, weigh-insert,
  weight_at-le,
}
use Prim.Native.String.{String}
use warpline.Base.Text.{codes}
use warpline.Types.Names.{valid_name}
use warpline.Types.Limits.{Limits}
use warpline.Registry.Pointer.{Io}
use warpline.Registry.Lru.{Lru}
use warpline.Registry.Wasmtime.{Wasmtime}
use warpline.Registry.Cache.{CacheEntry}
use warpline.Sandbox.Budget.{Event}
use warpline.Runtime.Errors.{
  InvokeError, invalid_name, not_found, overloaded, tenant_busy, invalid_limits,
  cpu_budget_exceeded, memory_cap_exceeded, wall_clock_timeout, output_too_large, guest_trap, load,
  http_status,
}
use warpline.Runtime.Semaphore.{Semaphore}
use warpline.Runtime.Invoke.{Inner, Invocation, invoke}
use warpline.Pg.Schema.{SqlError}
use warpline.Pg.Auth.{AuthRow, Cached, Clock, Authenticator}
use warpline.Front.{Reply, reply, limits_or_reply, authenticate_request}

-- A body: a text, the guest's output, or an error's own message.
pub data AnswerBody : Type 0 where
  text : Bytes → AnswerBody
  output : Bytes → AnswerBody
  displayed : InvokeError → AnswerBody

pub record Answer : Type 0 where
  pub status : ℕ
  pub body : AnswerBody

abbrev pub answer_of : Reply → Answer
answer_of r = record { status = r.status; body = text r.body }

-- `outcome_label`.
unfoldable pub outcome_label : Result InvokeError Invocation → String
outcome_label (ok i) = "ok"
outcome_label (err invalid_name) = "invalid_name"
outcome_label (err not_found) = "not_found"
outcome_label (err overloaded) = "overloaded"
outcome_label (err tenant_busy) = "tenant_busy"
outcome_label (err (cpu_budget_exceeded usage budget_ms)) = "cpu_budget_exceeded"
outcome_label (err (memory_cap_exceeded usage cap_bytes)) = "memory_cap_exceeded"
outcome_label (err (wall_clock_timeout usage)) = "wall_clock_timeout"
outcome_label (err (output_too_large usage limit)) = "output_too_large"
outcome_label (err (guest_trap usage source)) = "guest_trap"
outcome_label (err (load e)) = "load_error"
outcome_label (err (invalid_limits e)) = "error"

-- `StatusCode::from_u16(…).unwrap_or(INTERNAL_SERVER_ERROR)`: a status has three digits.
unfoldable pub status_or_500 : ℕ → ℕ
status_or_500 n = if leb 100 n && leb n 999 then n else 500

unfoldable pub body_of : Bytes → Bytes → InvokeError → AnswerBody
body_of tenant func not_found = text (codes "no module for " ++ tenant ++ codes "/" ++ func)
body_of tenant func (guest_trap usage source) = text (codes "guest trapped")
body_of tenant func (load e) = text (codes "failed to load module")
body_of tenant func e = displayed e

unfoldable pub respond : Bytes → Bytes → Result InvokeError Invocation → Answer
respond tenant func (ok i) = record { status = 200; body = output i.output }
respond tenant func (err e) = record {
  status = status_or_500 (http_status e);
  body = body_of tenant func e;
}

module _ (w : Wasmtime) (c : Lru (CacheEntry w.Pre)) (sem : Semaphore)
    (keys : Lru (ℕ × Cached)) where
  pub record HostState : Type 0 where
    pub runtime : Inner w c sem
    pub auth : Option (Authenticator keys w.digest)
    pub counted : List (Bytes × Bytes × String)

  -- A call of the runtime and its answer; a dropped call has none, and is not counted.
  unfoldable pub answer_call :
      HostState
      → Bytes
      → Bytes
      → Inner w c sem × Option (Result InvokeError Invocation)
      → HostState × Option Answer
  answer_call state tenant func (runtime, none) = (record state { runtime = runtime }, none)
  answer_call state tenant func (runtime, some result) = (
    record state {
      runtime = runtime;
      counted = (tenant, func, outcome_label result) ∷ state.counted;
    },
    some (respond tenant func result),
  )

  module _ (sys : Io) (guest : w.Pre → List Event) (wall_us : ℕ) where
    unfoldable pub invoke_as :
        HostState → Bytes → Bytes → Result Reply Limits → HostState × Option Answer
    invoke_as state tenant func (err r) = (state, some (answer_of r))
    invoke_as state tenant func (ok limits) =
        answer_call state tenant func
          (invoke w c sem sys guest wall_us state.runtime tenant func limits)

    unfoldable pub invoke_handler :
        HostState
        → Clock
        → Result SqlError (Option AuthRow)
        → Bytes
        → Bytes
        → Option Bytes
        → HostState × Option Answer
    invoke_handler state clock answer tenant func header =
        if not (valid_name tenant) || not (valid_name func)
        then (state, some (answer_of (reply 400 "invalid tenant or function name")))
        else let a = authenticate_request keys w.digest state.auth clock answer tenant header in
          invoke_as (record state { auth = a.0 }) tenant func (limits_or_reply a.1)
