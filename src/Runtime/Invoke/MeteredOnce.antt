-- ===== src/Runtime/Invoke/MeteredOnce.antt =====
-- What `invoke` of crates/core/src/runtime.rs reports to the meter.
use warpline.Base.{
  ℕ, ◌≡◌, refl, ◌∙◌, ◌⊎◌, inl, inr, Bool, true, false, not, ◌||◌, List, ◌∷◌, Option, none, some,
  arith, ltb, Bool-cases, Option-cases, length, Result, ok, err, Result-cases, Bytes, bytes_eq,
  pair_eq,
}
use warpline.Types.Names.{valid_name}
use warpline.Types.Limits.{Limits, validate_limits}
use warpline.Registry.Pointer.{Io}
use warpline.Registry.Lru.{Lru}
use warpline.Registry.Wasmtime.{Wasmtime}
use warpline.Registry.Cache.{CacheEntry}
use warpline.Sandbox.Budget.{
  Event, Failure, cpu_budget, wall_clock, mem_cap, trap, Status, running, ended, run,
}
use warpline.Runtime.Errors.{
  Usage, InvokeError, usage_of, invalid_name, invalid_limits, tenant_busy, overloaded,
}
use warpline.Runtime.Slots.{acquire}
use warpline.Runtime.Semaphore.{Semaphore}
use warpline.Runtime.Invoke.{
  RuntimeConfig, Metered, Invocation, weight_of_cap, admissible, usage_at, outcome_of, Inner,
  record_usage, run_metered, load_pre, invoke_admitted, invoke_slotted, invoke_checked, invoke,
}
use warpline.Runtime.Invoke.Released.{load_pre-Kept}
use warpline.Runtime.Invoke.LoadErrors.{load_pre-error}

abbrev pub report : Bytes → Bytes → Usage → Bool → Metered
report tenant func usage succeeded = record {
  tenant = tenant;
  func = func;
  usage = usage;
  succeeded = succeeded;
}

-- What a call may report, by its result: a call that was dropped while the guest ran, one that
-- finished, and one that failed with a usage, report once, with that usage; one that failed without
-- a usage reports nothing.
pub data MeteredOnce (tenant func : Bytes) (before after : List Metered)
    : Option (Result InvokeError Invocation) → Type 0 where
  dropped :
      (usage : Usage)
      → after ≡ report tenant func usage false ∷ before
      → MeteredOnce tenant func before after none
  finished :
      (i : Invocation)
      → after ≡ report tenant func i.usage true ∷ before
      → MeteredOnce tenant func before after (some (ok i))
  failed :
      (e : InvokeError) (usage : Usage)
      → usage_of e ≡ some usage
      → after ≡ report tenant func usage false ∷ before
      → MeteredOnce tenant func before after (some (err e))
  refused :
      (e : InvokeError)
      → usage_of e ≡ none
      → after ≡ before
      → MeteredOnce tenant func before after (some (err e))

-- The error of a run that ended carries the run's usage.
outcome_of-usage :
    (cfg : RuntimeConfig) (limits : Limits) (usage : Usage) (r : Result Failure Bytes)
    → ((i : Invocation) × (outcome_of cfg limits usage r ≡ ok i) × (i.usage ≡ usage))
      ⊎ ((e : InvokeError) × (outcome_of cfg limits usage r ≡ err e) × (usage_of e ≡ some usage))
unfolding outcome_of usage_of
outcome_of-usage cfg limits usage (ok output) =
    elim (Bool-cases (ltb cfg.max_output_bytes (length output))) [
      | inl large ↦ rw large (inr (_, refl, refl))
      | inr fits ↦ rw fits (inl (_, refl, refl))
    ]
outcome_of-usage cfg limits usage (err cpu_budget) = inr (_, refl, refl)
outcome_of-usage cfg limits usage (err (mem_cap cap_bytes)) = inr (_, refl, refl)
outcome_of-usage cfg limits usage (err wall_clock) = inr (_, refl, refl)
outcome_of-usage cfg limits usage (err (trap e)) = inr (_, refl, refl)

retold :
    (tenant func : Bytes) (a b after : List Metered) (o : Option (Result InvokeError Invocation))
    → a ≡ b
    → MeteredOnce tenant func a after o
    → MeteredOnce tenant func b after o
retold tenant func a b after o e m = rw (← e) m

module _ (w : Wasmtime) (c : Lru (CacheEntry w.Pre)) (sem : Semaphore) where
  record_usage-on :
      (inner : Inner w c sem) (tenant func : Bytes) (usage : Usage) (succeeded : Bool)
      → inner.meter ≡ true
      → (record_usage w c sem inner tenant func usage succeeded).metered
        ≡ report tenant func usage succeeded ∷ inner.metered
  unfolding record_usage
  record_usage-on inner tenant func usage succeeded on = ground arith

  run_metered-MeteredOnce :
      (inner : Inner w c sem) (tenant func : Bytes) (limits : Limits) (wall_us : ℕ) (s : Status)
      → inner.meter ≡ true
      → let r = run_metered w c sem inner tenant func limits wall_us s in
        MeteredOnce tenant func inner.metered r.0.metered r.1
  unfolding run_metered
  run_metered-MeteredOnce inner tenant func limits wall_us (running x) on =
      dropped (usage_at x.ticks wall_us 0)
        (record_usage-on inner tenant func (usage_at x.ticks wall_us 0) false on)
  run_metered-MeteredOnce inner tenant func limits wall_us (ended ticks run') on =
      let usage = usage_at ticks wall_us run'.mem_peak in
      elim (outcome_of-usage inner.cfg limits usage run'.result) [
        | inl (i, e, u) ↦ rw e (finished i (rw u (record_usage-on inner tenant func usage true on)))
        | inr (x, e, u) ↦ rw e (failed x usage u (record_usage-on inner tenant func usage false on))
      ]

  module _ (sys : Io) (guest : w.Pre → List Event) (wall_us : ℕ) where
    -- A call's report, against the state that it started from.
    abbrev Reported :
        Bytes
        → Bytes
        → List Metered
        → Inner w c sem × Option (Result InvokeError Invocation)
        → Type 0
    Reported tenant func before r = MeteredOnce tenant func before r.0.metered r.1

    invoke_admitted-MeteredOnce :
        (inner : Inner w c sem) (tenant func : Bytes) (limits : Limits)
        → inner.meter ≡ true
        → Reported tenant func inner.metered
            (invoke_admitted w c sem sys guest wall_us inner tenant func limits)
    unfolding invoke_admitted
    invoke_admitted-MeteredOnce inner tenant func limits on =
        let loaded = load_pre w c sem sys inner tenant func in
        let (kept, silent) = load_pre-Kept w c sem sys inner tenant func in
        elim (Result-cases loaded.1) [
          | inr (e, h) ↦
              rw (h, invoke_admitted)
                (refused e (load_pre-error w c sem sys inner tenant func e h) silent)
          | inl (pre, h) ↦
              let status = run limits.cpu_budget_ms limits.mem_cap_bytes (guest pre) in
              let r = run_metered w c sem loaded.0 tenant func limits wall_us status in
              let ran : Reported tenant func inner.metered r =
                retold tenant func loaded.0.metered inner.metered r.0.metered r.1 silent (
                  run_metered-MeteredOnce loaded.0 tenant func limits wall_us status
                    (kept.2 ∙ on)) in
              rw (h, invoke_admitted) ran
        ]

    invoke_slotted-MeteredOnce :
        (inner : Inner w c sem) (tenant func : Bytes) (limits : Limits)
        → inner.meter ≡ true
        → Reported tenant func inner.metered
            (invoke_slotted w c sem sys guest wall_us inner tenant func limits)
    unfolding invoke_slotted usage_of
    invoke_slotted-MeteredOnce inner tenant func limits on =
        let weight = weight_of_cap limits.mem_cap_bytes in
        elim (Bool-cases (admissible inner.cfg weight)) [
          | inr large ↦ rw (large, invoke_slotted) (refused overloaded refl refl)
          | inl fits ↦ elim (Option-cases (sem.try_acquire_many weight inner.admission)) [
            | inl short ↦ rw (fits, short, invoke_slotted) (refused overloaded refl refl)
            | inr (t, taken) ↦
                rw (fits, taken, invoke_slotted)
                  (invoke_admitted-MeteredOnce (record inner { admission = t }) tenant func limits
                    on)
          ]
        ]

    invoke_checked-MeteredOnce :
        (inner : Inner w c sem) (tenant func : Bytes) (limits : Limits)
        → inner.meter ≡ true
        → Reported tenant func inner.metered
            (invoke_checked w c sem sys guest wall_us inner tenant func limits)
    unfolding invoke_checked usage_of
    invoke_checked-MeteredOnce inner tenant func limits on =
        elim (Option-cases (acquire inner.cfg.max_in_flight_per_tenant tenant inner.in_flight)) [
          | inl busy ↦ rw (busy, invoke_checked) (refused tenant_busy refl refl)
          | inr (slots, given) ↦
              rw (given, invoke_checked)
                (invoke_slotted-MeteredOnce (record inner { in_flight = slots }) tenant func limits
                  on)
        ]

    -- With a sink, a call reports once, under its tenant and function: with the usage of its result
    -- if it finished or failed after the guest started, as a failure if it was dropped while the
    -- guest ran. A call that failed without a usage reports nothing.
    pub invoke-MeteredOnce :
        (inner : Inner w c sem) (tenant func : Bytes) (limits : Limits)
        → inner.meter ≡ true
        → let r = invoke w c sem sys guest wall_us inner tenant func limits in
          MeteredOnce tenant func inner.metered r.0.metered r.1
    unfolding invoke usage_of
    invoke-MeteredOnce inner tenant func limits on =
        elim (Bool-cases (not (valid_name tenant) || not (valid_name func))) [
          | inl bad ↦ rw (bad, invoke) (refused invalid_name refl refl)
          | inr good ↦ elim (Result-cases (validate_limits limits)) [
            | inr (e, h) ↦ rw (good, h, invoke) (refused (invalid_limits e) refl refl)
            | inl (u, h) ↦
                rw (good, h, invoke) (invoke_checked-MeteredOnce inner tenant func limits on)
          ]
        ]
