-- ===== src/Host/Answers.antt =====
-- What `invoke_handler` of crates/host/src/lib.rs runs and answers.
use warpline.Base.{
  ℕ, ◌≤◌, ◌<◌, ◌≡◌, refl, ◌⊎◌, inl, inr, true, false, List, [], ◌∷◌, Option, none, some, arith,
  Bool-cases, Result, ok, err, Bytes, bytes_eq, pair_eq,
}
use warpline.Types.Names.{valid_name}
use warpline.Registry.Pointer.{Error, Io}
use warpline.Registry.Lru.{Lru}
use warpline.Registry.Wasmtime.{Wasmtime}
use warpline.Registry.Cache.{CacheEntry}
use warpline.Sandbox.Budget.{Event, WasmError}
use warpline.Runtime.Errors.{
  InvokeError, invalid_name, not_found, overloaded, tenant_busy, invalid_limits,
  cpu_budget_exceeded, memory_cap_exceeded, wall_clock_timeout, output_too_large, guest_trap, load,
  http_status,
}
use warpline.Runtime.Semaphore.{Semaphore}
use warpline.Runtime.Invoke.{Inner, Invocation, invoke}
use warpline.Pg.Schema.{SqlError}
use warpline.Pg.Auth.{
  AuthOutcome, authorized, missing_or_unknown_key, wrong_tenant, AuthError, AuthRow, Cached, Clock,
  Authenticator,
}
use warpline.Front.{limits_or_reply, authenticate_request}
use warpline.Host.{
  AnswerBody, output, Answer, outcome_label, status_or_500, body_of, respond, HostState,
  answer_call, invoke_as, invoke_handler,
}

-- The answers that mean a failure of the call carry its status, which is no success.
status_or_500-http_status :
    (e : InvokeError)
    → (status_or_500 (http_status e) ≡ http_status e)
      × (400 ≤ http_status e)
      × (http_status e < 600)
unfolding status_or_500 http_status
status_or_500-http_status invalid_name = (refl, omega arith, omega arith)
status_or_500-http_status not_found = (refl, omega arith, omega arith)
status_or_500-http_status overloaded = (refl, omega arith, omega arith)
status_or_500-http_status tenant_busy = (refl, omega arith, omega arith)
status_or_500-http_status (invalid_limits e) = (refl, omega arith, omega arith)
status_or_500-http_status (cpu_budget_exceeded usage n) = (refl, omega arith, omega arith)
status_or_500-http_status (memory_cap_exceeded usage n) = (refl, omega arith, omega arith)
status_or_500-http_status (wall_clock_timeout usage) = (refl, omega arith, omega arith)
status_or_500-http_status (output_too_large usage n) = (refl, omega arith, omega arith)
status_or_500-http_status (guest_trap usage source) = (refl, omega arith, omega arith)
status_or_500-http_status (load e) = (refl, omega arith, omega arith)

-- What a caller may not learn: why a module failed to load, where and how a guest trapped.
abbrev pub public_part : InvokeError → InvokeError
public_part (guest_trap usage source) =
    guest_trap (record { cpu_us = 0; wall_us = 0; mem_peak_bytes = 0 }) (WasmError.other [])
public_part (load e) = load Error.internal
public_part e = e

respond-public_part :
    (tenant func : Bytes) (e : InvokeError)
    → respond tenant func (err e) ≡ respond tenant func (err (public_part e))
unfolding respond http_status body_of
respond-public_part tenant func invalid_name = refl
respond-public_part tenant func not_found = refl
respond-public_part tenant func overloaded = refl
respond-public_part tenant func tenant_busy = refl
respond-public_part tenant func (invalid_limits e) = refl
respond-public_part tenant func (cpu_budget_exceeded usage n) = refl
respond-public_part tenant func (memory_cap_exceeded usage n) = refl
respond-public_part tenant func (wall_clock_timeout usage) = refl
respond-public_part tenant func (output_too_large usage n) = refl
respond-public_part tenant func (guest_trap usage source) = refl
respond-public_part tenant func (load e) = refl

module _ (w : Wasmtime) (c : Lru (CacheEntry w.Pre)) (sem : Semaphore)
    (keys : Lru (ℕ × Cached)) where
  -- An answer with a status; the runtime is not called and nothing is counted.
  abbrev pub Denied : ℕ → HostState w c sem keys → HostState w c sem keys × Option Answer → Type 0
  Denied status state r =
      (r.0.runtime ≡ state.runtime)
      × (r.0.counted ≡ state.counted)
      × ((body : AnswerBody) × (r.1 ≡ some (record { status = status; body = body })))

  -- What a call's result is answered with.
  abbrev pub Responds : Bytes → Bytes → Result InvokeError Invocation → Answer → Type 0
  Responds tenant func (ok i) a = a ≡ record { status = 200; body = output i.output }
  Responds tenant func (err e) a =
      (a.status ≡ http_status e)
      × (400 ≤ a.status)
      × (a.status < 600)
      × (a ≡ respond tenant func (err (public_part e)))

  -- The call's state is the next state; a result is answered and counted once.
  abbrev pub Called :
      HostState w c sem keys
      → Bytes
      → Bytes
      → Inner w c sem × Option (Result InvokeError Invocation)
      → HostState w c sem keys × Option Answer
      → Type 0
  Called state tenant func (runtime, none) r =
      (r.0.runtime ≡ runtime) × (r.0.counted ≡ state.counted) × (r.1 ≡ none)
  Called state tenant func (runtime, some result) r =
      (r.0.runtime ≡ runtime)
      × (r.0.counted ≡ (tenant, func, outcome_label result) ∷ state.counted)
      × ((a : Answer) × (r.1 ≡ some a) × Responds tenant func result a)

  Responds-respond :
      (tenant func : Bytes) (result : Result InvokeError Invocation)
      → Responds tenant func result (respond tenant func result)
  unfolding respond
  Responds-respond tenant func (ok i) = refl
  Responds-respond tenant func (err e) =
      let (same, low, high) = status_or_500-http_status e in
      (same, rw same low, rw same high, respond-public_part tenant func e)

  answer_call-Called :
      (state : HostState w c sem keys) (tenant func : Bytes)
      (called : Inner w c sem × Option (Result InvokeError Invocation))
      → Called state tenant func called (answer_call w c sem keys state tenant func called)
  unfolding answer_call
  answer_call-Called state tenant func (runtime, none) = (refl, refl, refl)
  answer_call-Called state tenant func (runtime, some result) =
      (refl, refl, (respond tenant func result, refl, Responds-respond tenant func result))

  module _ (sys : Io) (guest : w.Pre → List Event) (wall_us : ℕ) where
    -- What follows from what the authentication says.
    abbrev pub Authorises :
        HostState w c sem keys
        → Bytes
        → Bytes
        → Option (Authenticator keys w.digest) × Result AuthError AuthOutcome
        → HostState w c sem keys × Option Answer
        → Type 0
    Authorises state tenant func (auth, ok wrong_tenant) r = Denied 403 state r
    Authorises state tenant func (auth, ok missing_or_unknown_key) r = Denied 401 state r
    Authorises state tenant func (auth, err e) r = Denied 503 state r
    Authorises state tenant func (auth, ok (authorized l)) r =
        Called state tenant func (invoke w c sem sys guest wall_us state.runtime tenant func l) r

    invoke_as-Authorises :
        (state : HostState w c sem keys) (tenant func : Bytes)
        (a : Option (Authenticator keys w.digest) × Result AuthError AuthOutcome)
        → Authorises state tenant func a (
            invoke_as w c sem keys sys guest wall_us
              (record state { auth = a.0 })
              tenant
              func
              (limits_or_reply a.1))
    unfolding invoke_as limits_or_reply
    invoke_as-Authorises state tenant func (auth, ok wrong_tenant) = (refl, refl, (_, refl))
    invoke_as-Authorises state tenant func (auth, ok missing_or_unknown_key) =
        (refl, refl, (_, refl))
    invoke_as-Authorises state tenant func (auth, err e) = (refl, refl, (_, refl))
    invoke_as-Authorises state tenant func (auth, ok (authorized l)) =
        answer_call-Called (record state { auth = auth }) tenant func
          (invoke w c sem sys guest wall_us state.runtime tenant func l)

    -- A request under bad names is answered 400, one with a key of another tenant 403, with no or
    -- an unknown key 401, and one that could not be authenticated 503, and the runtime is not
    -- called. Any other is one call of the runtime with the limits that the authentication gave: a result is
    -- counted once and answered, a success by 200 with the guest's output, a failure by its own
    -- status, between 400 and 599, in a way that does not depend on why a module failed to load or
    -- on where and how the guest trapped. A dropped call is neither answered nor counted.
    pub invoke_handler-Authorises :
        (state : HostState w c sem keys) (clock : Clock) (answer : Result SqlError (Option AuthRow))
        (tenant func : Bytes) (header : Option Bytes)
        → let r =
            invoke_handler w c sem keys sys guest wall_us state clock answer tenant func header in
          (((valid_name tenant ≡ false) ⊎ (valid_name func ≡ false)) × Denied 400 state r)
          ⊎ ((valid_name tenant ≡ true)
              × (valid_name func ≡ true)
              × Authorises state tenant func
                  (authenticate_request keys w.digest state.auth clock answer tenant header)
                  r)
    unfolding invoke_handler
    invoke_handler-Authorises state clock answer tenant func header =
        elim (Bool-cases (valid_name tenant)) [
          | inr bad ↦ rw (bad, invoke_handler) (inl (inl refl, (refl, refl, (_, refl))))
          | inl vt ↦ elim (Bool-cases (valid_name func)) [
            | inr bad ↦ rw (vt, invoke_handler) (rw bad (inl (inr refl, (refl, refl, (_, refl)))))
            | inl vf ↦
                rw (vt, invoke_handler)
                  (rw vf (
                    inr (
                      refl,
                      refl,
                      invoke_as-Authorises state tenant func (
                          authenticate_request keys w.digest state.auth clock answer tenant header),
                    )))
          ]
        ]
