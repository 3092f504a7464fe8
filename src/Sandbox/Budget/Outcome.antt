-- ===== src/Sandbox/Budget/Outcome.antt =====
-- What the result of `run` in crates/core/src/sandbox.rs says of the run.
use warpline.Base.{
  ℕ, ◌^◌, ◌≤◌, ◌<◌, ◌≡◌, refl, inl, inr, List, arith, ltb, Bool-cases, All, wrapping_add, Result,
  ok, err, Bytes, bytes_eq, pair_eq,
}
use warpline.Types.Limiter.{
  memory_growing, table_growing, WithinCaps, growing-WithinCaps, new_limiter-WithinCaps,
}
use warpline.Sandbox.Budget.{
  classify, WasmError, budget_marker, interrupt, other, Failure, cpu_budget, wall_clock, mem_cap,
  trap, Run, Event, tick, grow, grow_table, instantiated, returned, elapsed, Exec, Status, running,
  ended, budget_ticks_of, start, finish, on_tick, step, run,
}
use warpline.Sandbox.Budget.Cutoff.{run_from-inv, budget_ticks_of_bounds, call_limit_bounds}
use warpline.Sandbox.Budget.FullBudget.{start-limit}

-- A request to grow a memory or a table names a size below 2 ^ 63.
abbrev pub SizedEvent : Event → Type 0
SizedEvent (grow current desired declared) = desired < 2 ^ 63
SizedEvent (grow_table current desired declared) = desired < 2 ^ 63
SizedEvent e = Unit

-- A failure for memory names this cap.
abbrev pub NamesCap : ℕ → Result Failure Bytes → Type 0
NamesCap mem (err (mem_cap c)) = c ≡ mem
NamesCap mem (err cpu_budget) = Unit
NamesCap mem (err wall_clock) = Unit
NamesCap mem (err (trap e)) = Unit
NamesCap mem (ok b) = Unit

-- What a run reports of memory, under the cap `mem`.
abbrev MemoryTruth : ℕ → Status → Type 0
MemoryTruth mem (running x) = WithinCaps x.limiter × (x.limiter.mem_cap_bytes ≡ mem)
MemoryTruth mem (ended t r) = (r.mem_peak ≤ mem) × NamesCap mem r.result

finish-MemoryTruth :
    (mem : ℕ) (x : Exec) (out : Result WasmError Bytes)
    → MemoryTruth mem (running x)
    → MemoryTruth mem (finish x out)
unfolding finish classify
finish-MemoryTruth mem x (ok b) v = (let w = v.0 in ground arith, ground arith)
finish-MemoryTruth mem x (err budget_marker) v = (let w = v.0 in ground arith, ground arith)
finish-MemoryTruth mem x (err interrupt) v = (let w = v.0 in ground arith, ground arith)
finish-MemoryTruth mem x (err (other o)) v = (let w = v.0 in ground arith, ground arith)

step-MemoryTruth :
    (mem budget : ℕ) (x : Exec) (e : Event)
    → SizedEvent e
    → MemoryTruth mem (running x)
    → MemoryTruth mem (step budget x e)
unfolding step on_tick
step-MemoryTruth mem budget x tick sz v = elim (Bool-cases (ltb x.limit (wrapping_add x.ticks 1))) [
  | inl over ↦
      rw over
        (finish-MemoryTruth mem (record x { ticks = wrapping_add x.ticks 1 }) (err budget_marker) v)
  | inr within ↦ rw within v
]
step-MemoryTruth mem budget x (grow current desired declared) sz v = (
  (growing-WithinCaps x.limiter current desired declared v.0 sz).0,
  unfold memory_growing in ground arith,
)
step-MemoryTruth mem budget x (grow_table current desired declared) sz v = (
  (growing-WithinCaps x.limiter current desired declared v.0 sz).1,
  unfold table_growing in ground arith,
)
step-MemoryTruth mem budget x (instantiated (ok t)) sz v = v
step-MemoryTruth mem budget x (instantiated (err e)) sz v = finish-MemoryTruth mem x (err e) v
step-MemoryTruth mem budget x (returned out) sz v = finish-MemoryTruth mem x out v
step-MemoryTruth mem budget x elapsed sz v = (omega arith, ground arith)

start-MemoryTruth : (ms mem : ℕ) → mem < 2 ^ 63 → MemoryTruth mem (running (start ms mem))
unfolding start
start-MemoryTruth ms mem h = (new_limiter-WithinCaps mem h, refl)

-- A run that ends reports a memory peak within the cap, also where it fails, and a failure for
-- memory names the cap that the call was given. The cap and the sizes asked for are below 2^63.
pub run_memory :
    (ms mem : ℕ) (es : List Event) (t : ℕ) (r : Run)
    → mem < 2 ^ 63
    → All SizedEvent es
    → run ms mem es ≡ ended t r
    → (r.mem_peak ≤ mem) × NamesCap mem r.result
unfolding run
run_memory ms mem es t r h sz e = rw e at (
    run_from-inv SizedEvent (MemoryTruth mem) (budget_ticks_of ms)
      (step-MemoryTruth mem (budget_ticks_of ms)) (start ms mem) es sz (start-MemoryTruth ms mem h))

-- Wasmtime ends the guest with no error that reads as an exhausted budget by itself.
abbrev pub OwnError : Event → Type 0
OwnError (instantiated (err budget_marker)) = ⊥
OwnError (instantiated (err interrupt)) = ⊥
OwnError (returned (err budget_marker)) = ⊥
OwnError (returned (err interrupt)) = ⊥
OwnError e = Unit

abbrev NotEarly : ℕ → Status → Type 0
NotEarly budget (running x) = budget ≤ x.limit
NotEarly budget (ended t r) = r.result ≡ err cpu_budget → budget < t

step-NotEarly :
    (budget : ℕ) (x : Exec) (e : Event)
    → budget ≤ 10000
    → OwnError e
    → NotEarly budget (running x)
    → NotEarly budget (step budget x e)
unfolding step on_tick finish classify
step-NotEarly budget x tick h o v = ground arith
step-NotEarly budget x (grow current desired declared) h o v = v
step-NotEarly budget x (grow_table current desired declared) h o v = v
step-NotEarly budget x (instantiated (ok t)) h o v = (call_limit_bounds x.ticks budget h).0
step-NotEarly budget x (instantiated (err budget_marker)) h o v = absurd o
step-NotEarly budget x (instantiated (err interrupt)) h o v = absurd o
step-NotEarly budget x (instantiated (err (other e))) h o v = ground arith
step-NotEarly budget x (returned (ok b)) h o v = ground arith
step-NotEarly budget x (returned (err budget_marker)) h o v = absurd o
step-NotEarly budget x (returned (err interrupt)) h o v = absurd o
step-NotEarly budget x (returned (err (other e))) h o v = ground arith
step-NotEarly budget x elapsed h o v = ground arith

-- A run fails for its CPU budget only after more ticks than the budget has milliseconds. The budget
-- is 1 to 10000 ms, and wasmtime itself raises no error that reads as an exhausted budget.
pub run_not_early :
    (ms mem : ℕ) (es : List Event) (t : ℕ) (r : Run)
    → 1 ≤ ms
    → ms ≤ 10000
    → All OwnError es
    → run ms mem es ≡ ended t r
    → r.result ≡ err cpu_budget
    → ms < t
unfolding run
run_not_early ms mem es t r lo hi own e cpu =
    let b = budget_ticks_of_bounds ms lo hi in
    let truth : NotEarly (budget_ticks_of ms) (ended t r) = rw e at (
      run_from-inv OwnError (NotEarly (budget_ticks_of ms)) (budget_ticks_of ms)
        (λ x ev. step-NotEarly (budget_ticks_of ms) x ev b.1) (start ms mem) es own
        (omega (arith, start-limit ms mem lo hi))) in
    let late = truth cpu in omega arith
