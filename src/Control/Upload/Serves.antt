-- ===== src/Control/Upload/Serves.antt =====
-- What a success of `upload` of crates/control/src/lib.rs means.
use warpline.Base.{
  ℕ, ◌≡◌, refl, sym, ap, ◌∙◌, ◌⊎◌, inl, inr, Bool, true, false, List, Option, none, some, arith, ℤ,
  Result, ok, err, Result-cases, Bytes, bytes_eq, pair_beq_iff, pair_eq,
}
use warpline.Types.Names.{valid_name}
use warpline.Types.Limits.{Limits}
use warpline.Registry.Disk.{Disk}
use warpline.Registry.Pointer.{Io}
use warpline.Registry.Lru.{Lru}
use warpline.Registry.Wasmtime.{Wasmtime}
use warpline.Runtime.Publish.{stage, active}
use warpline.Runtime.Publish.Laws.{active-activate}
use warpline.Pg.Schema.{Database}
use warpline.Pg.Auth.{
  AuthOutcome, authorized, missing_or_unknown_key, wrong_tenant, AuthError, Cached, Authenticator,
}
use warpline.Front.{Reply, authenticate_request}
use warpline.Control.Publish.{PublishNetwork, select_hash, publish_pointer}
use warpline.Control.Publish.Publishes.{publish_in_db-Publishes}
use warpline.Control.Upload.{Field, read_fields, AppState, World, has_database, upload_wasm, upload}
use warpline.Control.Upload.Guarded.{Body, Authenticated, upload-Guards}

publish_pointer-ok :
    (has_db : Bool) (net net' : PublishNetwork) (sys sys' : Io) (max_functions : ℤ) (d : Database)
    (disk : Disk) (tenant func digest : Bytes)
    → let r = publish_pointer has_db net sys net' sys' max_functions d disk tenant func digest in
      r.2 ≡ ok tt
      → valid_name tenant ≡ true
      → valid_name func ≡ true
      → (active r.1 tenant func ≡ ok (some digest))
        × ((has_db ≡ false) ⊎ (select_hash r.0 tenant func ≡ some digest))
unfolding publish_pointer
publish_pointer-ok false net net' sys sys' max_functions d disk tenant func digest h vt vf =
    let self = (pair_beq_iff (tenant, func) (tenant, func)).1 refl in
    (
      active-activate sys disk tenant func digest tenant func (ground arith) vt vf ∙ rw self refl,
      inl refl,
    )
publish_pointer-ok true net net' sys sys' max_functions d disk tenant func digest h vt vf =
    let self = (pair_beq_iff (tenant, func) (tenant, func)).1 refl in
    elim (publish_in_db-Publishes net' sys' tenant func digest tenant func net sys max_functions d
      disk vt vf) [
        | inl (done, row, pointer) ↦ (pointer ∙ rw self refl, inr row)
        | inr failed ↦ elim failed [
          | inl (e, bad, same, same') ↦ absurd (ground arith)
          | inr (bad, undone) ↦ absurd (ground arith)
        ]
      ]

module _ (w : Wasmtime) (c : Lru (ℕ × Cached)) where
  -- The pointer serves the digest, and with a database the function's row holds it.
  abbrev pub Serves : Bool → AppState w c → Bytes → Bytes → Bytes → Type 0
  Serves has_db state tenant func digest =
      (active state.disk tenant func ≡ ok (some digest))
      × ((has_db ≡ false) ⊎ (select_hash state.tables tenant func ≡ some digest))

  upload_wasm-Serves :
      (world : World w c) (state : AppState w c) (tenant func wasm digest : Bytes)
      → valid_name tenant ≡ true
      → valid_name func ≡ true
      → (upload_wasm w c world state tenant func wasm).1 ≡ ok digest
      → Serves
          (has_database w c state.auth)
          (upload_wasm w c world state tenant func wasm).0
          tenant
          func
          digest
  unfolding upload_wasm
  upload_wasm-Serves world state tenant func wasm digest vt vf h =
      elim (Result-cases (stage w world.persist world.source state.disk wasm).1) [
        | inr (e, p) ↦ absurd (ground arith)
        | inl (made, p) ↦
            let d = (stage w world.persist world.source state.disk wasm).0 in
            let r =
              publish_pointer (has_database w c state.auth) world.net world.pointer
                world.reconcile_net world.reconcile_pointer state.max_functions_per_tenant
                state.tables d tenant func made in
            elim (Result-cases r.2) [
              | inr (e, q) ↦ absurd (ground arith)
              | inl (u, q) ↦
                  let same : made ≡ digest = ground arith in
                  let served =
                    publish_pointer-ok (has_database w c state.auth) world.net world.reconcile_net
                      world.pointer world.reconcile_pointer state.max_functions_per_tenant
                      state.tables d tenant func made q vt vf in
                  rw (p, upload_wasm) (rw (← same) served)
            ]
      ]

  Body-Serves :
      (world : World w c) (state state' : AppState w c) (tenant func digest : Bytes)
      (content : Result Reply (Option Bytes)) (r : AppState w c × Result Reply Bytes)
      → valid_name tenant ≡ true
      → valid_name func ≡ true
      → Body w c world state state' tenant func content r
      → r.1 ≡ ok digest
      → Serves (has_database w c state'.auth) r.0 tenant func digest
  Body-Serves world state state' tenant func digest (err e) r vt vf b h = absurd (ground arith)
  Body-Serves world state state' tenant func digest (ok none) r vt vf b h = absurd (ground arith)
  Body-Serves world state state' tenant func digest (ok (some wasm)) r vt vf b h =
      rw b
        (upload_wasm-Serves world state' tenant func wasm digest vt vf (ap (λ x. x.1) (sym b) ∙ h))

  Authenticated-Serves :
      (world : World w c) (state : AppState w c) (tenant func digest : Bytes)
      (content : Result Reply (Option Bytes))
      (a : Option (Authenticator c w.digest) × Result AuthError AuthOutcome)
      (r : AppState w c × Result Reply Bytes)
      → valid_name tenant ≡ true
      → valid_name func ≡ true
      → Authenticated w c world state tenant func content a r
      → r.1 ≡ ok digest
      → ((l : Limits) × (a.1 ≡ ok (authorized l)))
        × Serves (has_database w c a.0) r.0 tenant func digest
  Authenticated-Serves world state tenant func digest content (auth, ok wrong_tenant) r vt vf g h =
      absurd (ground arith)
  Authenticated-Serves world state tenant func digest content (auth, ok missing_or_unknown_key) r vt
        vf g h =
      absurd (ground arith)
  Authenticated-Serves world state tenant func digest content (auth, err e) r vt vf g h =
      absurd (ground arith)
  Authenticated-Serves world state tenant func digest content (auth, ok (authorized l)) r vt vf g
        h =
      (
        (l, refl),
        Body-Serves world state (record state { auth = auth }) tenant func digest content r vt vf g
            h,
      )

  -- An upload that is answered with a digest came from a caller who was authorised for the tenant
  -- under valid names; the function's pointer then serves that digest, and with a database its row
  -- holds the same.
  pub upload-Serves :
      (world : World w c) (state : AppState w c) (tenant func : Bytes) (header : Option Bytes)
      (fields : List (Result ℕ Field)) (digest : Bytes)
      → (upload w c world state tenant func header fields).1 ≡ ok digest
      → let a = authenticate_request c w.digest state.auth world.clock world.answer tenant header in
        (valid_name tenant ≡ true)
        × (valid_name func ≡ true)
        × ((l : Limits) × (a.1 ≡ ok (authorized l)))
        × Serves
            (has_database w c a.0)
            (upload w c world state tenant func header fields).0
            tenant
            func
            digest
  upload-Serves world state tenant func header fields digest h =
      elim (upload-Guards w c world state tenant func header fields) [
        | inl (names, refused) ↦ absurd (ground arith)
        | inr (vt, vf, g) ↦
            let s =
              Authenticated-Serves world state tenant func digest (read_fields none fields)
                (authenticate_request c w.digest state.auth world.clock world.answer tenant header)
                (upload w c world state tenant func header fields) vt vf g h in
            (vt, vf, s.0, s.1)
      ]
