-- ===== src/Runtime/Invoke/LoadErrors.antt =====
-- The errors of the loading part of `invoke` in crates/core/src/runtime.rs.
use warpline.Base.{
  ◌≡◌, refl, sym, ◌∙◌, inl, inr, none, arith, Result, ok, err, map_err, Result-cases, Bytes,
  bytes_eq, pair_eq,
}
use warpline.Registry.Pointer.{Error, Io}
use warpline.Registry.Lru.{Lru}
use warpline.Registry.Wasmtime.{Wasmtime}
use warpline.Registry.Cache.{
  CacheEntry, Lookup, Loaded, not_found, hit, miss, ready, needs_compile, lookup_component,
  load_existing, get_or_load,
}
use warpline.Runtime.Errors.{InvokeError, usage_of, load}
use warpline.Runtime.Semaphore.{Semaphore}
use warpline.Runtime.Invoke.{Inner, load_miss, load_pre}

same_error :
    {A : Type 0} (r : Result InvokeError A) (a b : InvokeError) → r ≡ err a → r ≡ err b → a ≡ b
same_error (ok x) a b h k = absurd (ground arith)
same_error (err x) a b h k = ground arith

not_both :
    {A : Type 0} (r : Result InvokeError A) (a : A) (b : InvokeError) → r ≡ ok a → r ≡ err b → ⊥
not_both (ok x) a b h k = ground arith
not_both (err x) a b h k = ground arith

module _ (w : Wasmtime) (c : Lru (CacheEntry w.Pre)) (sem : Semaphore) where
  map_err-load :
      (r : Result Error w.Pre) (e : InvokeError) → map_err load r ≡ err e → usage_of e ≡ none
  unfolding usage_of
  map_err-load (ok pre) e h = absurd (ground arith)
  map_err-load (err x) e h = let same : load x ≡ e = ground arith in rw (← same) refl

  -- A load that fails does so before the guest has used anything.
  load_miss-error :
      (sys : Io) (inner : Inner w c sem) (digest : Bytes) (e : InvokeError)
      → (load_miss w c sem sys inner digest).1 ≡ err e
      → usage_of e ≡ none
  unfolding load_miss usage_of
  load_miss-error sys inner digest e h =
      elim (Result-cases (load_existing w c inner.components inner.disk digest).1) [
        | inr (x, l) ↦
            let same : load x ≡ e =
              same_error (load_miss w c sem sys inner digest).1 (load x) e (rw (l, load_miss) refl)
                h in
            rw (← same) refl
        | inl (l, there) ↦ go l there
      ]
    where
      go :
          (l : Loaded w.Pre)
          → (load_existing w c inner.components inner.disk digest).1 ≡ ok l
          → usage_of e ≡ none
      go (ready pre) l =
          absurd (not_both (load_miss w c sem sys inner digest).1 pre e (rw (l, load_miss) refl) h)
      go needs_compile l =
          let loaded = load_existing w c inner.components inner.disk digest in
          map_err-load (get_or_load w c sys loaded.0 inner.disk digest).2 e
            (sym (rw (l, load_miss) refl) ∙ h)

  pub load_pre-error :
      (sys : Io) (inner : Inner w c sem) (tenant func : Bytes) (e : InvokeError)
      → (load_pre w c sem sys inner tenant func).1 ≡ err e
      → usage_of e ≡ none
  unfolding load_pre usage_of
  load_pre-error sys inner tenant func e h =
      elim (Result-cases (lookup_component w c inner.components inner.disk tenant func).1) [
        | inr (x, l) ↦
            let same : load x ≡ e =
              same_error (load_pre w c sem sys inner tenant func).1 (load x) e
                (rw (l, load_pre) refl) h in
            rw (← same) refl
        | inl (l, there) ↦ go l there
      ]
    where
      go :
          (l : Lookup w.Pre)
          → (lookup_component w c inner.components inner.disk tenant func).1 ≡ ok l
          → usage_of e ≡ none
      go not_found l =
          let same : InvokeError.not_found ≡ e =
            same_error (load_pre w c sem sys inner tenant func).1 InvokeError.not_found e
              (rw (l, load_pre) refl) h in
          rw (← same) refl
      go (hit pre) l =
          absurd
            (not_both (load_pre w c sem sys inner tenant func).1 pre e (rw (l, load_pre) refl) h)
      go (miss digest) l =
          let found : Inner w c sem = record inner {
            components = (lookup_component w c inner.components inner.disk tenant func).0;
          } in
          let missed : (load_pre w c sem sys inner tenant func).1
              ≡ (load_miss w c sem sys found digest).1 =
            rw (l, load_pre) refl in
          load_miss-error sys found digest e (sym missed ∙ h)
