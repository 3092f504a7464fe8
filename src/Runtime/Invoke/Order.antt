-- ===== src/Runtime/Invoke/Order.antt =====
-- The order of the refusals of `invoke` in crates/core/src/runtime.rs.
use warpline.Base.{
  ℕ, ◌/◌, ◌^◌, ◌≤◌, ◌<◌, ◌≡◌, refl, ◌↔◌, ◌⊎◌, inl, inr, true, false, List, none, some, arith, leb,
  Bool-cases, Option-cases, ok, err, Result-cases, Bytes, bytes_eq, pair_eq,
}
use warpline.Types.Names.{valid_name}
use warpline.Types.Limits.{ConfigError, Limits, validate_limits, validate_limits_iff}
use warpline.Registry.Pointer.{Io, read_pointer}
use warpline.Registry.Lru.{Lru}
use warpline.Registry.Wasmtime.{Wasmtime}
use warpline.Registry.Cache.{CacheEntry, not_found, lookup_component}
use warpline.Sandbox.Budget.{Event}
use warpline.Runtime.Errors.{InvokeError, invalid_name, invalid_limits, tenant_busy, overloaded}
use warpline.Runtime.Slots.{acquire, in_flight_of, acquire-count, acquire_busy}
use warpline.Runtime.Semaphore.{Semaphore}
use warpline.Runtime.Invoke.{
  RuntimeConfig, mib, weight_of_cap, admissible, Inner, load_pre, invoke_admitted, invoke_slotted,
  invoke_checked, invoke,
}

-- The whole budget, or what is free of it, is less than the call weighs.
abbrev pub Short : ℕ → ℕ → ℕ → Type 0
Short weight budget free = (budget / mib < weight) ⊎ (free < weight)

abbrev pub Names : Bytes → Bytes → Type 0
Names tenant func = (valid_name tenant ≡ true) × (valid_name func ≡ true)

-- In range, a call weighs at most 512 MiB.
weight_small : (l : Limits) → validate_limits l ≡ ok tt → weight_of_cap l.mem_cap_bytes < 2 ^ 32
unfolding weight_of_cap
weight_small l h = let r = (validate_limits_iff l).0 h in let high = r.mem_high in omega arith

admissible_iff :
    (cfg : RuntimeConfig) (weight : ℕ)
    → weight < 2 ^ 32
    → (admissible cfg weight ≡ true) ↔ (weight ≤ cfg.memory_budget_bytes / mib)
unfolding admissible
admissible_iff cfg weight small = ground arith

module _ (w : Wasmtime) (c : Lru (CacheEntry w.Pre)) (sem : Semaphore) (sys : Io)
    (guest : w.Pre → List Event) (wall_us : ℕ) where
  admitted_unpublished :
      (inner : Inner w c sem) (tenant func : Bytes) (limits : Limits)
      → read_pointer inner.disk tenant func ≡ ok none
      → (invoke_admitted w c sem sys guest wall_us inner tenant func limits).1
        ≡ some (err InvokeError.not_found)
  unfolding invoke_admitted load_pre lookup_component
  admitted_unpublished inner tenant func limits nobody =
      let found : (lookup_component w c inner.components inner.disk tenant func).1 ≡ ok not_found =
        rw (nobody, lookup_component) refl in
      let loaded : (load_pre w c sem sys inner tenant func).1 ≡ err InvokeError.not_found =
        rw (found, load_pre) refl in
      rw (loaded, invoke_admitted) refl

  slotted_unpublished :
      (inner : Inner w c sem) (tenant func : Bytes) (limits : Limits)
      → validate_limits limits ≡ ok tt
      → read_pointer inner.disk tenant func ≡ ok none
      → let weight = weight_of_cap limits.mem_cap_bytes in
        let r = (invoke_slotted w c sem sys guest wall_us inner tenant func limits).1 in
        (Short weight inner.cfg.memory_budget_bytes (sem.available_permits inner.admission)
          × (r ≡ some (err overloaded)))
        ⊎ ((weight ≤ inner.cfg.memory_budget_bytes / mib)
            × (weight ≤ sem.available_permits inner.admission)
            × (r ≡ some (err InvokeError.not_found)))
  unfolding invoke_slotted
  slotted_unpublished inner tenant func limits good nobody =
      let weight = weight_of_cap limits.mem_cap_bytes in
      let whole = admissible_iff inner.cfg weight (weight_small limits good) in
      elim (Bool-cases (admissible inner.cfg weight)) [
        | inr large ↦ inl (inl (ground arith), rw (large, invoke_slotted) refl)
        | inl fits ↦ elim (Bool-cases (leb weight (sem.available_permits inner.admission))) [
          | inr short ↦
              let less : sem.available_permits inner.admission < weight = ground arith in
              inl (
                inr less,
                rw (fits, sem.acquire-short weight inner.admission less, invoke_slotted) refl,
              )
          | inl enough ↦
              let le : weight ≤ sem.available_permits inner.admission = ground arith in
              let (t, taken, left) = sem.acquire-enough weight inner.admission le in
              inr (
                whole.0 fits,
                le,
                rw (fits, taken, invoke_slotted)
                    (admitted_unpublished (record inner { admission = t }) tenant func limits
                      nobody),
              )
        ]
      ]

  -- A call of a function that nobody published fails with the first of the documented reasons that
  -- applies: a name that is not valid, limits out of range, a tenant with as many calls in flight
  -- as the cap allows, a weight above the whole budget or above what is free of it, and then that
  -- nothing is found. The cap is at least 1 and a word.
  pub invoke_unpublished :
      (inner : Inner w c sem) (tenant func : Bytes) (limits : Limits)
      → 1 ≤ inner.cfg.max_in_flight_per_tenant
      → inner.cfg.max_in_flight_per_tenant < 2 ^ 64
      → read_pointer inner.disk tenant func ≡ ok none
      → let weight = weight_of_cap limits.mem_cap_bytes in
        let free = sem.available_permits inner.admission in
        let busy = in_flight_of tenant inner.in_flight in
        let r = (invoke w c sem sys guest wall_us inner tenant func limits).1 in
        (((valid_name tenant ≡ false) ⊎ (valid_name func ≡ false)) × (r ≡ some (err invalid_name)))
        ⊎ (Names tenant func
            × ((e : ConfigError) × (validate_limits limits ≡ err e)
                × (r ≡ some (err (invalid_limits e)))))
        ⊎ (Names tenant func
            × (validate_limits limits ≡ ok tt)
            × (inner.cfg.max_in_flight_per_tenant ≤ busy)
            × (r ≡ some (err tenant_busy)))
        ⊎ (Names tenant func
            × (validate_limits limits ≡ ok tt)
            × (busy < inner.cfg.max_in_flight_per_tenant)
            × Short weight inner.cfg.memory_budget_bytes free
            × (r ≡ some (err overloaded)))
        ⊎ (Names tenant func
            × (validate_limits limits ≡ ok tt)
            × (busy < inner.cfg.max_in_flight_per_tenant)
            × (weight ≤ inner.cfg.memory_budget_bytes / mib)
            × (weight ≤ free)
            × (r ≡ some (err InvokeError.not_found)))
  unfolding invoke invoke_checked
  invoke_unpublished inner tenant func limits one word nobody =
      elim (Bool-cases (valid_name tenant)) [
        | inr bad ↦ inl (inl bad, rw (bad, invoke) refl)
        | inl vt ↦ elim (Bool-cases (valid_name func)) [
          | inr bad ↦ inl (inr bad, rw (vt, bad, invoke) refl)
          | inl vf ↦ elim (Result-cases (validate_limits limits)) [
            | inr (e, h) ↦ inr (inl ((vt, vf), (e, h, rw (vt, vf, h, invoke) refl)))
            | inl (u, h) ↦
                elim (Option-cases
                  (acquire inner.cfg.max_in_flight_per_tenant tenant inner.in_flight)) [
                    | inl full ↦ inr (
                        inr (
                          inl (
                            (vt, vf),
                            h,
                            acquire_busy inner.cfg.max_in_flight_per_tenant tenant inner.in_flight
                                full,
                            rw (vt, vf, h, full, invoke, invoke_checked) refl,
                          )))
                    | inr (slots, given) ↦
                        let room =
                          (acquire-count inner.cfg.max_in_flight_per_tenant tenant tenant
                            inner.in_flight slots one word given).0 in
                        elim (slotted_unpublished (record inner { in_flight = slots }) tenant func
                          limits h nobody) [
                            | inl (short, r) ↦ inr (
                                inr (
                                  inr (
                                    inl (
                                      (vt, vf),
                                      h,
                                      room,
                                      short,
                                      rw (vt, vf, h, given, invoke, invoke_checked) r,
                                    ))))
                            | inr (whole, free, r) ↦ inr (
                                inr (
                                  inr (
                                    inr (
                                      (vt, vf),
                                      h,
                                      room,
                                      whole,
                                      free,
                                      rw (vt, vf, h, given, invoke, invoke_checked) r,
                                    ))))
                          ]
                  ]
          ]
        ]
      ]
