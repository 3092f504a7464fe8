-- ===== src/Runtime/Invoke.antt =====
-- `RuntimeConfig`, `MeterGuard` and `invoke` of crates/core/src/runtime.rs, for one call: the slot
-- and the permits are taken before the component is loaded, and given back on every path out. A
-- call whose future is dropped while the guest runs has no result.
pub mod Released
pub mod LoadErrors
pub mod MeteredOnce
pub mod Order
use warpline.Base.{
  ℕ, zero, suc, ◌+◌, ◌-◌, ◌*◌, ◌/◌, ◌%◌, ◌^◌, ◌≤◌, ◌<◌, min, max, ◌≡◌, refl, sym, ap, ◌∙◌, ◌≢◌, ◌↔◌,
  ◌⊎◌, inl, inr, Bool, true, false, not, ◌&&◌, ◌||◌, List, [], ◌∷◌, ◌++◌, map, Option, none, some,
  arith, ltb, leb, ◌==◌, if◌then◌else◌, ltb→lt, lt→ltb, leb→le, le→leb, ==_iff, Bool-cases,
  Option-cases, Bool-eq_of_iff, length, take, drop, replicate, length-append, length-take,
  take-append-drop, all, any, All, keep, sum_by, length-keep-le, word_mod, word_max, i64_max,
  wrapping_add, wrapping_sub, wrapping_mul, saturating_sub, saturating_add, ℤ, pos, negsuc,
  in_range, i64_or_max, Result, ok, err, ◌>>=◌, ◌>>◌, map_err, ok_or, ensure, is_ok, Result-cases,
  Eq, Bytes, bytes_beq, bytes_beq_iff, bytes_eq, pair_beq, pair_beq_iff, pair_eq, lookup, insert,
  remove, lookup-insert, lookup-remove, lookup-insert_self, weigh, weight_at, weigh-insert,
  weight_at-le,
}
use warpline.Types.Names.{valid_name}
use warpline.Types.Limits.{Limits, validate_limits}
use warpline.Registry.Disk.{Disk}
use warpline.Registry.Pointer.{Error, Io}
use warpline.Registry.Lru.{Lru}
use warpline.Registry.Wasmtime.{Wasmtime}
use warpline.Registry.Cache.{
  CacheEntry, ComponentCache, not_found, hit, miss, Loaded, ready, needs_compile, lookup_component,
  load_existing, get_or_load,
}
use warpline.Sandbox.Budget.{
  Event, Run, Failure, cpu_budget, wall_clock, mem_cap, trap, Status, running, ended, run,
  epoch_tick_ms,
}
use warpline.Runtime.Errors.{
  Usage, InvokeError, invalid_name, invalid_limits, tenant_busy, overloaded, cpu_budget_exceeded,
  memory_cap_exceeded, wall_clock_timeout, output_too_large, guest_trap, load,
}
use warpline.Runtime.Slots.{InFlight, acquire, release}
use warpline.Runtime.Semaphore.{Semaphore}

abbrev pub mib : ℕ
mib = 1024 * 1024

-- The parts of `RuntimeConfig` that `invoke` reads.
pub record RuntimeConfig : Type 0 where
  pub memory_budget_bytes : ℕ
  pub max_in_flight_per_tenant : ℕ
  pub max_output_bytes : ℕ

-- One call of `MeterSink::record`.
pub record Metered : Type 0 where
  pub tenant : Bytes
  pub func : Bytes
  pub usage : Usage
  pub succeeded : Bool

pub record Invocation : Type 0 where
  pub output : Bytes
  pub usage : Usage

-- `limits.mem_cap_bytes.div_ceil(MIB).max(1)`, in MiB.
unfoldable pub weight_of_cap : ℕ → ℕ
weight_of_cap cap_bytes = max ((cap_bytes + (mib - 1)) / mib) 1

-- `u32::try_from`, and the bound by the whole budget.
unfoldable pub admissible : RuntimeConfig → ℕ → Bool
admissible cfg weight = ltb weight (2 ^ 32) && leb weight (cfg.memory_budget_bytes / mib)

unfoldable pub usage_at : ℕ → ℕ → ℕ → Usage
usage_at ticks wall_us mem_peak = record {
  cpu_us = wrapping_mul ticks (epoch_tick_ms * 1000);
  wall_us = wall_us;
  mem_peak_bytes = mem_peak;
}

-- The match on `run.result`.
unfoldable pub outcome_of :
    RuntimeConfig → Limits → Usage → Result Failure Bytes → Result InvokeError Invocation
outcome_of cfg limits usage (ok output) =
    if ltb cfg.max_output_bytes (length output)
    then err (output_too_large usage cfg.max_output_bytes)
    else ok (record { output = output; usage = usage })
outcome_of cfg limits usage (err cpu_budget) = err (cpu_budget_exceeded usage limits.cpu_budget_ms)
outcome_of cfg limits usage (err (mem_cap cap_bytes)) = err (memory_cap_exceeded usage cap_bytes)
outcome_of cfg limits usage (err wall_clock) = err (wall_clock_timeout usage)
outcome_of cfg limits usage (err (trap e)) = err (guest_trap usage e)

module _ (w : Wasmtime) (c : Lru (CacheEntry w.Pre)) (sem : Semaphore) where
  -- The state that the calls share, with what was reported to the meter, newest first.
  pub record Inner : Type 0 where
    pub cfg : RuntimeConfig
    pub components : ComponentCache c
    pub disk : Disk
    pub admission : sem.State
    pub in_flight : InFlight
    pub meter : Bool
    pub metered : List Metered

  -- What a call leaves: `none` where its future was dropped.
  abbrev pub Called : Type 0
  Called = Inner × Option (Result InvokeError Invocation)

  -- `sink.record`, if there is a sink.
  unfoldable pub record_usage : Inner → Bytes → Bytes → Usage → Bool → Inner
  record_usage inner tenant func usage succeeded =
      if inner.meter
      then record inner {
        metered =
            record { tenant = tenant; func = func; usage = usage; succeeded = succeeded }
            ∷ inner.metered;
      }
      else inner

  -- The run, with `MeterGuard`: `finish` reports a run that ended, `drop` one that was cut short.
  unfoldable pub run_metered : Inner → Bytes → Bytes → Limits → ℕ → Status → Called
  run_metered inner tenant func limits wall_us (ended ticks r) =
      let usage = usage_at ticks wall_us r.mem_peak in
      let result = outcome_of inner.cfg limits usage r.result in
      (record_usage inner tenant func usage (is_ok result), some result)
  run_metered inner tenant func limits wall_us (running x) =
      (record_usage inner tenant func (usage_at x.ticks wall_us 0) false, none)

  unfoldable pub load_miss : Io → Inner → Bytes → Inner × Result InvokeError w.Pre
  load_miss sys inner digest =
      let existing = load_existing w c inner.components inner.disk digest in
      let inner' : Inner = record inner { components = existing.0 } in
      elim existing.1 [
        | err e ↦ (inner', err (load e))
        | ok (ready pre) ↦ (inner', ok pre)
        | ok needs_compile ↦
            let r = get_or_load w c sys existing.0 inner.disk digest in
            (record inner { components = r.0; disk = r.1 }, map_err load r.2)
      ]

  -- From `lookup` to a component, compiled if need be.
  unfoldable pub load_pre : Io → Inner → Bytes → Bytes → Inner × Result InvokeError w.Pre
  load_pre sys inner tenant func =
      let found = lookup_component w c inner.components inner.disk tenant func in
      let inner' : Inner = record inner { components = found.0 } in
      elim found.1 [
        | err e ↦ (inner', err (load e))
        | ok not_found ↦ (inner', err InvokeError.not_found)
        | ok (hit pre) ↦ (inner', ok pre)
        | ok (miss digest) ↦ load_miss sys inner' digest
      ]

  -- What a guest does with its input, and the wall clock, are arguments.
  module _ (sys : Io) (guest : w.Pre → List Event) (wall_us : ℕ) where
    unfoldable pub invoke_admitted : Inner → Bytes → Bytes → Limits → Called
    invoke_admitted inner tenant func limits =
        let loaded = load_pre sys inner tenant func in
        elim loaded.1 [
          | err e ↦ (loaded.0, some (err e))
          | ok pre ↦
              run_metered loaded.0 tenant func limits wall_us
                (run limits.cpu_budget_ms limits.mem_cap_bytes (guest pre))
        ]

    unfoldable pub invoke_slotted : Inner → Bytes → Bytes → Limits → Called
    invoke_slotted inner tenant func limits =
        let weight = weight_of_cap limits.mem_cap_bytes in
        if not (admissible inner.cfg weight)
        then (inner, some (err overloaded))
        else elim (sem.try_acquire_many weight inner.admission) [
          | none ↦ (inner, some (err overloaded))
          | some admission ↦
              let r = invoke_admitted (record inner { admission = admission }) tenant func limits in
              (record r.0 { admission = sem.add_permits weight r.0.admission }, r.1)
        ]

    unfoldable pub invoke_checked : Inner → Bytes → Bytes → Limits → Called
    invoke_checked inner tenant func limits =
        elim (acquire inner.cfg.max_in_flight_per_tenant tenant inner.in_flight) [
          | none ↦ (inner, some (err tenant_busy))
          | some in_flight ↦
              let r = invoke_slotted (record inner { in_flight = in_flight }) tenant func limits in
              (record r.0 { in_flight = release tenant r.0.in_flight }, r.1)
        ]

    unfoldable pub invoke : Inner → Bytes → Bytes → Limits → Called
    invoke inner tenant func limits =
        if not (valid_name tenant) || not (valid_name func)
        then (inner, some (err invalid_name))
        else elim (validate_limits limits) [
          | err e ↦ (inner, some (err (invalid_limits e)))
          | ok t ↦ invoke_checked inner tenant func limits
        ]
