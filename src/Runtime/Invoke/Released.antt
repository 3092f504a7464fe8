-- ===== src/Runtime/Invoke/Released.antt =====
-- What a call of `invoke` in crates/core/src/runtime.rs takes, it gives back.
use warpline.Base.{
  ℕ, ◌+◌, ◌^◌, ◌≤◌, ◌<◌, ◌≡◌, refl, ap, ◌∙◌, inl, inr, true, not, ◌||◌, List, some, arith, leb,
  Bool-cases, Option-cases, ok, Result-cases, Bytes, bytes_beq, bytes_beq_iff, bytes_eq, pair_eq,
}
use warpline.Types.Names.{valid_name}
use warpline.Types.Limits.{Limits, validate_limits}
use warpline.Registry.Pointer.{Io}
use warpline.Registry.Lru.{Lru}
use warpline.Registry.Wasmtime.{Wasmtime}
use warpline.Registry.Cache.{
  CacheEntry, Lookup, Loaded, not_found, hit, miss, ready, needs_compile, lookup_component,
  load_existing,
}
use warpline.Sandbox.Budget.{Event, Status, running, ended, run}
use warpline.Runtime.Slots.{InFlight, acquire, release, in_flight_of, acquire-count, release-count}
use warpline.Runtime.Semaphore.{Semaphore}
use warpline.Runtime.Invoke.{
  weight_of_cap, admissible, Inner, record_usage, run_metered, load_miss, load_pre, invoke_admitted,
  invoke_slotted, invoke_checked, invoke,
}

module _ (w : Wasmtime) (c : Lru (CacheEntry w.Pre)) (sem : Semaphore) where
  -- The slots, the permits and the sink are as they were.
  abbrev pub Kept : Inner w c sem → Inner w c sem → Type 0
  Kept a b = (b.in_flight ≡ a.in_flight) × (b.admission ≡ a.admission) × (b.meter ≡ a.meter)

  run_metered-Kept :
      (inner : Inner w c sem) (tenant func : Bytes) (limits : Limits) (wall_us : ℕ) (s : Status)
      → Kept inner (run_metered w c sem inner tenant func limits wall_us s).0
  unfolding run_metered record_usage
  run_metered-Kept inner tenant func limits wall_us (ended ticks r) =
      elim (Bool-cases inner.meter) [
        | inl on ↦ rw on (refl, refl, refl)
        | inr off ↦ rw off (refl, refl, refl)
      ]
  run_metered-Kept inner tenant func limits wall_us (running x) = elim (Bool-cases inner.meter) [
    | inl on ↦ rw on (refl, refl, refl)
    | inr off ↦ rw off (refl, refl, refl)
  ]

  -- Loading touches the cache and the disk only.
  pub load_miss-Kept :
      (sys : Io) (inner : Inner w c sem) (digest : Bytes)
      → Kept inner (load_miss w c sem sys inner digest).0
        × ((load_miss w c sem sys inner digest).0.metered ≡ inner.metered)
  unfolding load_miss
  load_miss-Kept sys inner digest =
      elim (Result-cases (load_existing w c inner.components inner.disk digest).1) [
        | inr (e, h) ↦ rw (h, load_miss) ((refl, refl, refl), refl)
        | inl (l, h) ↦ go l h
      ]
    where
      go :
          (l : Loaded w.Pre)
          → (load_existing w c inner.components inner.disk digest).1 ≡ ok l
          → Kept inner (load_miss w c sem sys inner digest).0
            × ((load_miss w c sem sys inner digest).0.metered ≡ inner.metered)
      go (ready pre) h = rw (h, load_miss) ((refl, refl, refl), refl)
      go needs_compile h = rw (h, load_miss) ((refl, refl, refl), refl)

  pub load_pre-Kept :
      (sys : Io) (inner : Inner w c sem) (tenant func : Bytes)
      → Kept inner (load_pre w c sem sys inner tenant func).0
        × ((load_pre w c sem sys inner tenant func).0.metered ≡ inner.metered)
  unfolding load_pre
  load_pre-Kept sys inner tenant func =
      elim (Result-cases (lookup_component w c inner.components inner.disk tenant func).1) [
        | inr (e, h) ↦ rw (h, load_pre) ((refl, refl, refl), refl)
        | inl (l, h) ↦ go l h
      ]
    where
      go :
          (l : Lookup w.Pre)
          → (lookup_component w c inner.components inner.disk tenant func).1 ≡ ok l
          → Kept inner (load_pre w c sem sys inner tenant func).0
            × ((load_pre w c sem sys inner tenant func).0.metered ≡ inner.metered)
      go not_found h = rw (h, load_pre) ((refl, refl, refl), refl)
      go (hit pre) h = rw (h, load_pre) ((refl, refl, refl), refl)
      go (miss digest) h =
          let found : Inner w c sem = record inner {
            components = (lookup_component w c inner.components inner.disk tenant func).0;
          } in
          rw (h, load_pre) (load_miss-Kept sys found digest)

  module _ (sys : Io) (guest : w.Pre → List Event) (wall_us : ℕ) where
    invoke_admitted-Kept :
        (inner : Inner w c sem) (tenant func : Bytes) (limits : Limits)
        → Kept inner (invoke_admitted w c sem sys guest wall_us inner tenant func limits).0
    unfolding invoke_admitted
    invoke_admitted-Kept inner tenant func limits =
        let loaded = load_pre w c sem sys inner tenant func in
        let kept = (load_pre-Kept sys inner tenant func).0 in
        elim (Result-cases loaded.1) [
          | inr (e, h) ↦ rw (h, invoke_admitted) kept
          | inl (pre, h) ↦
              let ran =
                run_metered-Kept loaded.0 tenant func limits wall_us
                  (run limits.cpu_budget_ms limits.mem_cap_bytes (guest pre)) in
              rw (h, invoke_admitted) (ran.0 ∙ kept.0, ran.1 ∙ kept.1, ran.2 ∙ kept.2)
        ]

    -- The permits come back, and the slots are not touched.
    invoke_slotted-permits :
        (inner : Inner w c sem) (tenant func : Bytes) (limits : Limits)
        → ((invoke_slotted w c sem sys guest wall_us inner tenant func limits).0.in_flight
            ≡ inner.in_flight)
          × (sem.available_permits
                (invoke_slotted w c sem sys guest wall_us inner tenant func limits).0.admission
              ≡ sem.available_permits inner.admission)
    unfolding invoke_slotted
    invoke_slotted-permits inner tenant func limits =
        let weight = weight_of_cap limits.mem_cap_bytes in
        elim (Bool-cases (admissible inner.cfg weight)) [
          | inr large ↦ rw (large, invoke_slotted) (refl, refl)
          | inl fits ↦ elim (Bool-cases (leb weight (sem.available_permits inner.admission))) [
            | inr short ↦
                rw (fits, sem.acquire-short weight inner.admission (ground arith), invoke_slotted)
                  (refl, refl)
            | inl enough ↦
                let (t, taken, left) = sem.acquire-enough weight inner.admission (ground arith) in
                let during : Inner w c sem = record inner { admission = t } in
                let kept = invoke_admitted-Kept during tenant func limits in
                rw (fits, taken, invoke_slotted)
                  (
                    kept.0,
                    sem.available-add weight
                          (invoke_admitted w c sem sys guest wall_us during tenant func
                            limits).0.admission
                        ∙ ap (λ s. sem.available_permits s + weight) kept.1
                        ∙ left,
                  )
          ]
        ]

    invoke_checked-released :
        (inner : Inner w c sem) (tenant func : Bytes) (limits : Limits) (t : Bytes)
        → 1 ≤ inner.cfg.max_in_flight_per_tenant
        → inner.cfg.max_in_flight_per_tenant < 2 ^ 64
        → let after = (invoke_checked w c sem sys guest wall_us inner tenant func limits).0 in
          (in_flight_of t after.in_flight ≡ in_flight_of t inner.in_flight)
          × (sem.available_permits after.admission ≡ sem.available_permits inner.admission)
    unfolding invoke_checked
    invoke_checked-released inner tenant func limits t one word =
        elim (Option-cases (acquire inner.cfg.max_in_flight_per_tenant tenant inner.in_flight)) [
          | inl busy ↦ rw (busy, invoke_checked) (refl, refl)
          | inr (slots, given) ↦
              let limit = inner.cfg.max_in_flight_per_tenant in
              let during : Inner w c sem = record inner { in_flight = slots } in
              let (same, permits) = invoke_slotted-permits during tenant func limits in
              rw (given, invoke_checked)
                (
                  ap (λ m. in_flight_of t (release tenant m)) same
                      ∙ back slots given limit one word,
                  permits,
                )
        ]
      where
        back :
            (slots : InFlight)
            → acquire inner.cfg.max_in_flight_per_tenant tenant inner.in_flight ≡ some slots
            → (limit : ℕ) → 1 ≤ inner.cfg.max_in_flight_per_tenant
            → inner.cfg.max_in_flight_per_tenant < 2 ^ 64
            → in_flight_of t (release tenant slots) ≡ in_flight_of t inner.in_flight
        back slots given limit one word =
            let cap_of = inner.cfg.max_in_flight_per_tenant in
            let mine = acquire-count cap_of tenant tenant inner.in_flight slots one word given in
            let self : bytes_beq tenant tenant ≡ true = (bytes_beq_iff tenant tenant).1 refl in
            let theirs = acquire-count cap_of tenant t inner.in_flight slots one word given in
            let up : in_flight_of tenant slots ≡ in_flight_of tenant inner.in_flight + 1 =
              rw self at mine.1 in
            let low = mine.0 in
            let down = release-count tenant t slots (omega arith) (omega arith) in
            let counted = theirs.1 in omega arith

    -- On every path out of a call, refused, failed, finished or dropped while the guest ran, each
    -- tenant has as many slots in use as before the call, and as many permits are free. The
    -- configuration allows at least one call at a time. The cap is a word.
    pub invoke-released :
        (inner : Inner w c sem) (tenant func : Bytes) (limits : Limits) (t : Bytes)
        → 1 ≤ inner.cfg.max_in_flight_per_tenant
        → inner.cfg.max_in_flight_per_tenant < 2 ^ 64
        → let after = (invoke w c sem sys guest wall_us inner tenant func limits).0 in
          (in_flight_of t after.in_flight ≡ in_flight_of t inner.in_flight)
          × (sem.available_permits after.admission ≡ sem.available_permits inner.admission)
    unfolding invoke
    invoke-released inner tenant func limits t one word =
        elim (Bool-cases (not (valid_name tenant) || not (valid_name func))) [
          | inl bad ↦ rw (bad, invoke) (refl, refl)
          | inr good ↦ elim (Result-cases (validate_limits limits)) [
            | inr (e, h) ↦ rw (good, h, invoke) (refl, refl)
            | inl (u, h) ↦
                rw (good, h, invoke) (invoke_checked-released inner tenant func limits t one word)
          ]
        ]
