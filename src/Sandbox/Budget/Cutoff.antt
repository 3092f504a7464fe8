-- ===== src/Sandbox/Budget/Cutoff.antt =====
-- When the epoch callback of crates/core/src/sandbox.rs cuts a guest off.
use warpline.Base.{
  ℕ, suc, ◌+◌, ◌^◌, ◌≤◌, ◌<◌, ◌≡◌, refl, ◌↔◌, ◌⊎◌, inl, inr, List, [], ◌∷◌, arith, All, ok, err,
  bytes_eq, pair_eq,
}
use warpline.Sandbox.Budget.{
  call_limit, Run, Event, tick, grow, grow_table, instantiated, returned, elapsed, Exec, Status,
  running, ended, budget_ticks_of, start, finish, on_tick, step, run_from, run,
}

-- What instantiation used is forgiven up to the grace of 2 ticks, so the limit of a call is between
-- the budget and the budget plus 2, and leaves the call its whole budget exactly where
-- instantiation used no more than the grace.
pub call_limit_bounds :
    (used budget : ℕ)
    → budget ≤ 10000
    → (budget ≤ call_limit used budget)
      × (call_limit used budget ≤ budget + 2)
      × ((used ≤ 2) ↔ (used + budget ≤ call_limit used budget))
unfolding call_limit
call_limit_bounds used budget h = ground arith

-- While the call runs, and where it ends.
abbrev pub TicksBound : ℕ → Status → Type 0
TicksBound budget (running x) = (x.ticks ≤ budget + 2) × (x.limit ≤ budget + 2)
TicksBound budget (ended t r) = t ≤ budget + 3

step-TicksBound :
    (budget : ℕ) (x : Exec) (e : Event)
    → budget ≤ 10000
    → TicksBound budget (running x)
    → TicksBound budget (step budget x e)
unfolding step call_limit
step-TicksBound budget x tick h b = ground arith
step-TicksBound budget x (grow current desired declared) h b = b
step-TicksBound budget x (grow_table current desired declared) h b = b
step-TicksBound budget x (instantiated (ok t)) h b = ground arith
step-TicksBound budget x (instantiated (err e)) h b = omega arith
step-TicksBound budget x (returned outcome) h b = omega arith
step-TicksBound budget x elapsed h b = omega arith

-- What each event of a kind keeps holds of a run of such events.
pub run_from-inv {ℓ κ} :
    (Q : Event → Type κ) (I : Status → Type ℓ) (budget : ℕ)
    → ((x : Exec) (e : Event) → Q e → I (running x) → I (step budget x e))
    → (x : Exec) (es : List Event) → All Q es
    → I (running x)
    → I (run_from budget x es)
unfolding run_from
run_from-inv Q I budget keeps x [] q i = i
run_from-inv Q I budget keeps x (e ∷ es) q i =
    go (step budget x e) (keeps x e q.0 i) (λ y. run_from-inv Q I budget keeps y es q.1)
  where
    go :
        (s : Status)
        → I s
        → ((y : Exec) → I (running y) → I (run_from budget y es))
        → I (elim s [ running x' ↦ run_from budget x' es | ended t r ↦ ended t r ])
    go (running y) j rest = rest y j
    go (ended t r) j rest = j

abbrev AnyEvent : Event → Type 0
AnyEvent e = Unit

All-events : (es : List Event) → All AnyEvent es
All-events [] = tt
All-events (e ∷ es) = (tt, All-events es)

pub budget_ticks_of_bounds :
    (ms : ℕ) → 1 ≤ ms → ms ≤ 10000 → (budget_ticks_of ms ≡ ms) × (budget_ticks_of ms ≤ 10000)
unfolding budget_ticks_of
budget_ticks_of_bounds ms lo hi = omega arith

start-TicksBound :
    (ms mem : ℕ) → ms ≤ 10000 → TicksBound (budget_ticks_of ms) (running (start ms mem))
unfolding start budget_ticks_of
start-TicksBound ms mem h = omega arith

run-TicksBound :
    (ms mem : ℕ) (es : List Event)
    → 1 ≤ ms
    → ms ≤ 10000
    → TicksBound (budget_ticks_of ms) (run ms mem es)
unfolding run
run-TicksBound ms mem es lo hi =
    let b = budget_ticks_of_bounds ms lo hi in
    run_from-inv AnyEvent (TicksBound (budget_ticks_of ms)) (budget_ticks_of ms)
      (λ x e _. step-TicksBound (budget_ticks_of ms) x e b.1) (start ms mem) es (All-events es)
      (start-TicksBound ms mem hi)

abbrev pub ticks_in : List Event → ℕ
ticks_in [] = 0
ticks_in (tick ∷ es) = suc (ticks_in es)
ticks_in (e ∷ es) = ticks_in es

-- The counter of a call that still runs counts the ticks.
step-ticks :
    (budget : ℕ) (x y : Exec) (e : Event)
    → x.ticks < 2 ^ 63
    → step budget x e ≡ running y
    → y.ticks ≡ x.ticks + ticks_in (e ∷ [])
unfolding step finish on_tick
step-ticks budget x y tick h e = ground arith
step-ticks budget x y (grow current desired declared) h e = ground arith
step-ticks budget x y (grow_table current desired declared) h e = ground arith
step-ticks budget x y (instantiated (ok t)) h e = ground arith
step-ticks budget x y (instantiated (err f)) h e = ground arith
step-ticks budget x y (returned outcome) h e = ground arith
step-ticks budget x y elapsed h e = ground arith

ticks_in-cons : (e : Event) (es : List Event) → ticks_in (e ∷ es) ≡ ticks_in (e ∷ []) + ticks_in es
ticks_in-cons tick es = omega arith
ticks_in-cons (grow current desired declared) es = omega arith
ticks_in-cons (grow_table current desired declared) es = omega arith
ticks_in-cons (instantiated r) es = omega arith
ticks_in-cons (returned r) es = omega arith
ticks_in-cons elapsed es = omega arith

Status-cases :
    (s : Status) → ((x : Exec) × (s ≡ running x)) ⊎ ((t : ℕ) × (r : Run) × (s ≡ ended t r))
Status-cases (running x) = inl (x, refl)
Status-cases (ended t r) = inr (t, r, refl)

run_from-ticks :
    (budget : ℕ) (x y : Exec) (es : List Event)
    → budget ≤ 10000
    → TicksBound budget (running x)
    → run_from budget x es ≡ running y
    → y.ticks ≡ x.ticks + ticks_in es
unfolding run_from
run_from-ticks budget x y [] h b e = ground arith
run_from-ticks budget x y (ev ∷ es) h b e = elim (Status-cases (step budget x ev)) [
  | inl (z, s) ↦
      let low = b.0 in
      let bz : TicksBound budget (running z) = rw s at (step-TicksBound budget x ev h b) in
      omega (
        arith,
        step-ticks budget x z ev (omega arith) s,
        run_from-ticks budget z y es h bz (rw (s, run_from) at e),
        ticks_in-cons ev es,
      )
  | inr (t, r, s) ↦ absurd (never t r y (rw (s, run_from) at e))
]
  where
    never : (t : ℕ) (r : Run) (z : Exec) → ended t r ≡ running z → ⊥
    never t r z q = ground arith

start-ticks : (ms mem : ℕ) → (start ms mem).ticks ≡ 0
unfolding start
start-ticks ms mem = refl

-- Under a CPU budget of 1 to 10000 ms a guest is cut off: once it has reached more than the budget
-- plus 2 ticks, whatever else happens, the run has ended, and it ends with at most the budget plus
-- 3 ticks on the counter.
pub run_cut_off :
    (ms mem : ℕ) (es : List Event)
    → 1 ≤ ms
    → ms ≤ 10000
    → ms + 2 < ticks_in es
    → (t : ℕ) × (r : Run) × (run ms mem es ≡ ended t r) × (t ≤ ms + 3)
run_cut_off ms mem es lo hi many = elim (Status-cases (run ms mem es)) [
  | inl (y, e) ↦
      let b = budget_ticks_of_bounds ms lo hi in
      let bound : TicksBound (budget_ticks_of ms) (running y) =
        rw e at (run-TicksBound ms mem es lo hi) in
      let low = bound.0 in
      absurd (
        omega (
          arith,
          run_from-ticks (budget_ticks_of ms) (start ms mem) y es b.1 (start-TicksBound ms mem hi)
              (unfold run in e),
          start-ticks ms mem,
        ))
  | inr (t, r, e) ↦
      let b = budget_ticks_of_bounds ms lo hi in
      let bound : TicksBound (budget_ticks_of ms) (ended t r) =
        rw e at (run-TicksBound ms mem es lo hi) in
      (t, r, e, omega arith)
]
