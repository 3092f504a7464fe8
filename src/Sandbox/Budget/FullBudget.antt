-- ===== src/Sandbox/Budget/FullBudget.antt =====
-- The budget that a guest has under the epoch callback of crates/core/src/sandbox.rs.
use warpline.Base.{
  ℕ, ◌+◌, ◌^◌, ◌≤◌, ◌<◌, ◌≡◌, refl, ap, ◌∙◌, ◌⊎◌, inl, inr, List, [], ◌∷◌, ◌++◌, arith, sym,
  Bool-cases, ltb, ltb→lt, map_err, All, Result, ok, err, Bytes, bytes_eq, pair_eq,
}
use native.Mathlib.Nat.{add-zero}
use warpline.Types.Limiter.{TenantLimiter, memory_growing, table_growing, new_limiter}
use warpline.Sandbox.Budget.{
  call_limit, WasmError, cpu_budget, Event, tick, grow, grow_table, instantiated, returned, elapsed,
  Exec, running, ended, budget_ticks_of, start, finish, on_tick, step, run_from, run, classify,
}
use warpline.Sandbox.Budget.Cutoff.{ticks_in, budget_ticks_of_bounds}

-- What a guest causes while it runs: ticks, and requests to grow a memory or a table.
abbrev pub GuestEvent : Event → Type 0
GuestEvent tick = Unit
GuestEvent (grow current desired declared) = Unit
GuestEvent (grow_table current desired declared) = Unit
GuestEvent (instantiated r) = ⊥
GuestEvent (returned r) = ⊥
GuestEvent elapsed = ⊥

-- The limiter after the requests among the events.
abbrev pub grown : TenantLimiter → List Event → TenantLimiter
grown l [] = l
grown l (grow current desired declared ∷ es) =
    grown (memory_growing l current desired declared).0 es
grown l (grow_table current desired declared ∷ es) =
    grown (table_growing l current desired declared).0 es
grown l (e ∷ es) = grown l es

abbrev later : Exec → List Event → Exec
later x es = record x { ticks = x.ticks + ticks_in es; limiter = grown x.limiter es }

-- Ticks up to the limit are counted, requests for growth go to the limiter, and both change nothing
-- else.
run_from-guest :
    (budget : ℕ) (x : Exec) (es rest : List Event)
    → All GuestEvent es
    → x.ticks + ticks_in es ≤ x.limit
    → x.limit < 2 ^ 63
    → run_from budget x (es ++ rest) ≡ run_from budget (later x es) rest
unfolding run_from step
run_from-guest budget x [] rest g h l =
    ap (λ k. run_from budget (record x { ticks = k }) rest) (sym (add-zero x.ticks))
run_from-guest budget x (tick ∷ es) rest g h l =
    let next : step budget x tick ≡ running (record x { ticks = x.ticks + 1 }) =
      unfold on_tick in ground arith in
    rw (next, run_from)
      (run_from-guest budget (record x { ticks = x.ticks + 1 }) es rest g.1 (omega arith) l
        ∙ ap (λ k. run_from budget (record x { ticks = k; limiter = grown x.limiter es }) rest)
            (omega arith))
run_from-guest budget x (grow current desired declared ∷ es) rest g h l =
    run_from-guest budget
      (record x { limiter = (memory_growing x.limiter current desired declared).0 }) es rest g.1 h l
run_from-guest budget x (grow_table current desired declared ∷ es) rest g h l =
    run_from-guest budget
      (record x { limiter = (table_growing x.limiter current desired declared).0 }) es rest g.1 h l
run_from-guest budget x (instantiated r ∷ es) rest g h l = absurd g.0
run_from-guest budget x (returned r ∷ es) rest g h l = absurd g.0
run_from-guest budget x (elapsed ∷ es) rest g h l = absurd g.0

-- The call after `used` ticks of instantiation, within the grace, and `es` since.
abbrev called : ℕ → ℕ → TenantLimiter → List Event → Exec
called ms used limiter es = record {
  ticks = used + ticks_in es;
  limit = used + ms;
  limiter = grown limiter es;
}

pub start-limit : (ms mem : ℕ) → 1 ≤ ms → ms ≤ 10000 → (start ms mem).limit ≡ ms + 2
unfolding start budget_ticks_of
start-limit ms mem lo hi = omega arith

instantiated_step :
    (ms used m : ℕ) (limiter : TenantLimiter) (es : List Event)
    → ms ≤ 10000
    → used ≤ 2
    → run_from ms
        (record { ticks = 0 + used; limit = m; limiter = limiter })
        (instantiated (ok tt) ∷ es)
      ≡ run_from ms (record { ticks = used; limit = used + ms; limiter = limiter }) es
unfolding run_from step call_limit
instantiated_step ms used m limiter es hi h =
    let l : call_limit (0 + used) ms ≡ used + ms = omega arith in
    let k : 0 + used ≡ used = omega arith in
    ap (λ n. run_from ms (record { ticks = 0 + used; limit = n; limiter = limiter }) es) l
    ∙ ap (λ n. run_from ms (record { ticks = n; limit = used + ms; limiter = limiter }) es) k

after_instantiation :
    (ms mem : ℕ) (before es rest : List Event)
    → 1 ≤ ms
    → ms ≤ 10000
    → All GuestEvent before
    → ticks_in before ≤ 2
    → All GuestEvent es
    → ticks_in es ≤ ms
    → run ms mem (before ++ (instantiated (ok tt) ∷ (es ++ rest)))
      ≡ run_from ms (called ms (ticks_in before) (grown (new_limiter mem) before) es) rest
unfolding run start
after_instantiation ms mem before es rest lo hi g h g' h' =
    let b = (budget_ticks_of_bounds ms lo hi).0 in
    let l = start-limit ms mem lo hi in
    let used = ticks_in before in
    let limiter = grown (new_limiter mem) before in
    let x : Exec = record { ticks = used; limit = used + ms; limiter = limiter } in
    let events = before ++ (instantiated (ok tt) ∷ (es ++ rest)) in
    ap (λ k. run_from k (start ms mem) events) b
    ∙ run_from-guest ms (start ms mem) before (instantiated (ok tt) ∷ (es ++ rest)) g (omega arith)
        (omega arith)
    ∙ instantiated_step ms used (start ms mem).limit limiter (es ++ rest) hi h
    ∙ run_from-guest ms x es rest g' (omega arith) (omega arith)

run_from-returned :
    (budget : ℕ) (x : Exec) (out : Result WasmError Bytes) (rest : List Event)
    → run_from budget x (returned out ∷ rest) ≡ finish x out
unfolding run_from step finish
run_from-returned budget x out rest = refl

run_from-over :
    (ms used : ℕ) (limiter : TenantLimiter) (es rest : List Event)
    → ms ≤ 10000
    → used ≤ 2
    → ticks_in es ≡ ms
    → run_from ms (called ms used limiter es) (tick ∷ rest)
      ≡ ended
          (used + ms + 1)
          (record { result = err cpu_budget; mem_peak = (grown limiter es).peak_bytes })
unfolding run_from step on_tick finish classify
run_from-over ms used limiter es rest hi h all = ground arith

-- A guest that instantiates within the grace of 2 ticks has its whole CPU budget, however it asks
-- for memory meanwhile. What it returns within the budget is the outcome of the run, with the peak
-- of memory of its requests, and a trap is classified by them; a guest that has used all of the
-- budget fails for it on the next tick, whatever would follow. The budget is 1 to 10000 ms; before
-- the end the events are ticks, requests for memories and tables, and the one end of instantiation.
pub run_full_budget :
    (ms mem : ℕ) (before es rest : List Event) (out : Result WasmError Bytes)
    → 1 ≤ ms
    → ms ≤ 10000
    → All GuestEvent before
    → ticks_in before ≤ 2
    → All GuestEvent es
    → ticks_in es ≤ ms
    → let limiter = grown (grown (new_limiter mem) before) es in
      (run ms mem (before ++ (instantiated (ok tt) ∷ (es ++ (returned out ∷ rest))))
        ≡ ended (ticks_in before + ticks_in es) (record {
          result = map_err (λ e. classify e limiter) out;
          mem_peak = limiter.peak_bytes;
        }))
      × ((ticks_in es < ms)
          ⊎ (run ms mem (before ++ (instantiated (ok tt) ∷ (es ++ (tick ∷ rest))))
              ≡ ended
                  (ticks_in before + ms + 1)
                  (record { result = err cpu_budget; mem_peak = limiter.peak_bytes })))
run_full_budget ms mem before es rest out lo hi g h g' h' = (
  after_instantiation ms mem before es (returned out ∷ rest) lo hi g h g' h'
      ∙ run_from-returned ms _ out rest
      ∙ unfold finish in refl,
  elim (Bool-cases (ltb (ticks_in es) ms)) [
    | inl within ↦ inl (omega (arith, ltb→lt (ticks_in es) ms within))
    | inr not_within ↦
        let all : ticks_in es ≡ ms = ground arith in
        inr (
          after_instantiation ms mem before es (tick ∷ rest) lo hi g h g' h'
          ∙ run_from-over ms (ticks_in before) (grown (new_limiter mem) before) es rest hi h all)
  ],
)
