-- ===== src/Sandbox/Budget.antt =====
-- `call_limit`, the epoch callback, `classify` and `run` of crates/core/src/sandbox.rs. What
-- wasmtime and the clock do is a list of events: a deadline of one epoch tick reached while the
-- guest runs, a request to grow a memory or a table, the end of instantiation, the end of the call, and the
-- wall-clock timeout, which drops the call.
pub mod Cutoff
pub mod FullBudget
pub mod Outcome
use warpline.Base.{
  ℕ, zero, suc, ◌+◌, ◌-◌, ◌*◌, ◌/◌, ◌%◌, ◌^◌, ◌≤◌, ◌<◌, min, max, ◌≡◌, refl, sym, ap, ◌∙◌, ◌≢◌, ◌↔◌,
  ◌⊎◌, inl, inr, Bool, true, false, not, ◌&&◌, ◌||◌, List, [], ◌∷◌, ◌++◌, map, Option, none, some,
  arith, ltb, leb, ◌==◌, if◌then◌else◌, ltb→lt, lt→ltb, leb→le, le→leb, ==_iff, Bool-cases,
  Option-cases, Bool-eq_of_iff, length, take, drop, replicate, length-append, length-take,
  take-append-drop, all, any, All, keep, sum_by, length-keep-le, word_mod, word_max, i64_max,
  wrapping_add, wrapping_sub, wrapping_mul, saturating_sub, saturating_add, ℤ, pos, negsuc,
  in_range, i64_or_max, Result, ok, err, ◌>>=◌, ◌>>◌, map_err, ok_or, ensure, is_ok, Result-cases,
  Eq, Bytes, bytes_beq, bytes_beq_iff, bytes_eq, pair_beq, pair_beq_iff, pair_eq, lookup, insert,
  remove, lookup-insert, lookup-remove, lookup-insert_self, weigh, weight_at, weigh-insert,
  weight_at-le,
}
use warpline.Types.Limiter.{TenantLimiter, memory_growing, table_growing, new_limiter}

abbrev pub epoch_tick_ms : ℕ
epoch_tick_ms = 1

abbrev pub instantiate_grace_ticks : ℕ
instantiate_grace_ticks = 2

unfoldable pub call_limit : ℕ → ℕ → ℕ
call_limit ticks_used_by_instantiation budget_ticks =
    saturating_add (min ticks_used_by_instantiation instantiate_grace_ticks) budget_ticks

-- `wasmtime::Error` as `classify` reads it: the callback's marker, `Trap::Interrupt`, or another.
pub data WasmError : Type 0 where
  budget_marker interrupt : WasmError
  other : Bytes → WasmError

pub data Failure : Type 0 where
  cpu_budget wall_clock : Failure
  mem_cap : (cap_bytes : ℕ) → Failure
  trap : WasmError → Failure

pub record Run : Type 0 where
  pub result : Result Failure Bytes
  pub mem_peak : ℕ

unfoldable pub classify : WasmError → TenantLimiter → Failure
classify budget_marker limiter = cpu_budget
classify interrupt limiter = cpu_budget
classify (other e) limiter =
    if limiter.cap_hit then mem_cap limiter.mem_cap_bytes else trap (other e)

pub data Event : Type 0 where
  tick : Event
  grow grow_table : (current desired : ℕ) (declared : Option ℕ) → Event
  instantiated : Result WasmError (Unit {0}) → Event
  returned : Result WasmError Bytes → Event
  elapsed : Event

-- The counter that the caller owns, the current limit, and the store's limiter.
pub record Exec : Type 0 where
  pub ticks : ℕ
  pub limit : ℕ
  pub limiter : TenantLimiter

-- The call goes on, or has ended, with the counter as it stands.
pub data Status : Type 0 where
  running : Exec → Status
  ended : (ticks : ℕ) → Run → Status

unfoldable pub budget_ticks_of : ℕ → ℕ
budget_ticks_of cpu_budget_ms = max (cpu_budget_ms / epoch_tick_ms) 1

-- The store as `run` sets it up.
unfoldable pub start : ℕ → ℕ → Exec
start cpu_budget_ms mem_cap_bytes = record {
  ticks = 0;
  limit = saturating_add (budget_ticks_of cpu_budget_ms) instantiate_grace_ticks;
  limiter = new_limiter mem_cap_bytes;
}

-- The end of the inner future: the peak is read, and an error is classified.
unfoldable pub finish : Exec → Result WasmError Bytes → Status
finish x outcome = ended x.ticks (record {
  result = map_err (λ e. classify e x.limiter) outcome;
  mem_peak = x.limiter.peak_bytes;
})

-- The epoch callback.
unfoldable pub on_tick : Exec → Status
unfolding finish
on_tick x =
    let n = wrapping_add x.ticks 1 in
    let counted : Exec = record x { ticks = n } in
    if ltb x.limit n then finish counted (err budget_marker) else running counted

unfoldable pub step : ℕ → Exec → Event → Status
unfolding finish on_tick
step budget x tick = on_tick x
step budget x (grow current desired declared) =
    running (record x { limiter = (memory_growing x.limiter current desired declared).0 })
step budget x (grow_table current desired declared) =
    running (record x { limiter = (table_growing x.limiter current desired declared).0 })
step budget x (instantiated (ok t)) = running (record x { limit = call_limit x.ticks budget })
step budget x (instantiated (err e)) = finish x (err e)
step budget x (returned outcome) = finish x outcome
step budget x elapsed = ended x.ticks (record { result = err wall_clock; mem_peak = 0 })

-- The events up to the one that ends the call.
unfoldable pub run_from : ℕ → Exec → List Event → Status
run_from budget x [] = running x
run_from budget x (e ∷ es) = elim (step budget x e) [
  | running x' ↦ run_from budget x' es
  | ended t r ↦ ended t r
]

-- `run`, under the budget and the cap of the call.
unfoldable pub run : ℕ → ℕ → List Event → Status
run cpu_budget_ms mem_cap_bytes events =
    run_from (budget_ticks_of cpu_budget_ms) (start cpu_budget_ms mem_cap_bytes) events
