-- ===== src/Runtime/Publish/Laws.antt =====
-- What publication in crates/core/src/runtime.rs leaves.
use warpline.Base.{
  ◌≡◌, refl, sym, ap, ◌∙◌, ◌⊎◌, inl, inr, Bool, true, not, ◌||◌, some, arith, if◌then◌else◌,
  Bool-cases, Result, ok, err, map_err, Bytes, bytes_eq, pair_beq, pair_eq,
}
use warpline.Types.Names.{valid_name}
use warpline.Registry.Disk.{Disk}
use warpline.Registry.Pointer.{Error, Io, write_pointer, read_pointer}
use warpline.Registry.Pointer.Laws.{read-write_pointer}
use warpline.Registry.Wasmtime.{Wasmtime}
use warpline.Registry.Blobs.{compile, typecheck_component}
use warpline.Runtime.Errors.{PublishError, into_publish_err, import_mismatch, bad_publish_name}
use warpline.Runtime.Publish.{activate, active, done, stage, stage_component, compile_err}

pub done-ok : {A : Type 0} (r : Result Error A) → done r ≡ ok tt → (a : A) × (r ≡ ok a)
done-ok (ok a) h = (a, refl)
done-ok (err e) h = absurd (ground arith)

pub active_valid :
    (d : Disk) (t f : Bytes)
    → valid_name t ≡ true
    → valid_name f ≡ true
    → active d t f ≡ map_err into_publish_err (read_pointer d t f)
unfolding active
active_valid d t f vt vf = rw (active, vt, vf) refl

-- After an activation that succeeds the pair of names is active with the digest that was given, and
-- every pair of valid names is otherwise active as before.
pub active-activate :
    (sys : Io) (d : Disk) (tenant func digest t f : Bytes)
    → (activate sys d tenant func digest).1 ≡ ok tt
    → valid_name t ≡ true
    → valid_name f ≡ true
    → active (activate sys d tenant func digest).0 t f
      ≡ (if pair_beq (tenant, func) (t, f) then ok (some digest) else active d t f)
unfolding activate
active-activate sys d tenant func digest t f h vt vf =
    elim (Bool-cases (not (valid_name tenant) || not (valid_name func))) [
      | inl bad ↦
          let refused : (activate sys d tenant func digest).1 ≡ err bad_publish_name =
            rw (bad, activate) refl in
          absurd (ground arith)
      | inr good ↦
          let r = write_pointer sys d tenant func digest in
          let act : activate sys d tenant func digest ≡ (r.0, done r.1) =
            rw (good, activate) refl in
          let (u, wrote) = done-ok r.1 (sym (ap (λ x. x.1) act) ∙ h) in
          let read = read-write_pointer sys d tenant func digest t f wrote in
          let after = active_valid r.0 t f vt vf ∙ ap (map_err into_publish_err) read in
          ap (λ x. active x.0 t f) act ∙ after ∙ chosen
    ]
  where
    chosen :
        map_err into_publish_err
          (if pair_beq (tenant, func) (t, f) then ok (some digest) else read_pointer d t f)
        ≡ (if pair_beq (tenant, func) (t, f) then ok (some digest) else active d t f)
    chosen = elim (Bool-cases (pair_beq (tenant, func) (t, f))) [
      | inl same ↦ rw same refl
      | inr other ↦ rw other (sym (active_valid d t f vt vf))
    ]

-- A component that does not compile, or that compiles and does not fit the handler world, is
-- refused, and nothing of it is persisted.
pub stage-refuses :
    (w : Wasmtime) (sys sys' : Io) (d : Disk) (wasm : Bytes)
    → ((e : Error) × (compile w d wasm ≡ err e))
      ⊎ ((component : w.Component) × (digest : Bytes) × (fresh : Bool) × (e : Error) × (compile w d
              wasm
            ≡ ok (component, digest, fresh))
          × (typecheck_component w component ≡ err e))
    → ((e : PublishError) × (stage w sys sys' d wasm ≡ (d, err e)))
unfolding stage stage_component
stage-refuses w sys sys' d wasm (inl (e, h)) = (compile_err e, rw (h, stage) refl)
stage-refuses w sys sys' d wasm (inr (component, digest, fresh, e, h, t)) =
    (import_mismatch e, rw (h, t, stage, stage_component) refl)
