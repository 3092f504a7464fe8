-- ===== src/Control/Upload/Guarded.antt =====
-- Who may upload by `upload` of crates/control/src/lib.rs.
use warpline.Base.{
  ℕ, ◌≡◌, refl, ◌⊎◌, inl, inr, true, false, List, Option, none, some, Bool-cases, Option-cases,
  Result, ok, err, Result-cases, Bytes, bytes_eq, pair_eq,
}
use warpline.Base.Text.{codes}
use warpline.Types.Names.{valid_name}
use warpline.Registry.Lru.{Lru}
use warpline.Registry.Wasmtime.{Wasmtime}
use warpline.Pg.Auth.{
  AuthOutcome, authorized, missing_or_unknown_key, wrong_tenant, AuthError, Cached, Authenticator,
}
use warpline.Front.{Reply, limits_or_reply, authenticate_request}
use warpline.Control.Upload.{
  Field, read_fields, AppState, World, upload_wasm, upload_body, upload_as, upload,
}

module _ (w : Wasmtime) (c : Lru (ℕ × Cached)) where
  -- An answer with a status that leaves tables and files alone.
  abbrev pub Refuses : ℕ → AppState w c → AppState w c × Result Reply Bytes → Type 0
  Refuses status state r =
      (r.0.disk ≡ state.disk)
      × (r.0.tables ≡ state.tables)
      × ((body : Bytes) × (r.1 ≡ err (record { status = status; body = body })))

  -- The body as it is read: its status, the lack of a module, or the upload of one.
  abbrev pub Body :
      World w c
      → AppState w c
      → AppState w c
      → Bytes
      → Bytes
      → Result Reply (Option Bytes)
      → AppState w c × Result Reply Bytes
      → Type 0
  Body world state state' tenant func (err e) r = Refuses e.status state r
  Body world state state' tenant func (ok none) r = Refuses 400 state r
  Body world state state' tenant func (ok (some wasm)) r =
      r ≡ upload_wasm w c world state' tenant func wasm

  upload_body-Body :
      (world : World w c) (state state' : AppState w c) (tenant func : Bytes)
      (fields : List (Result ℕ Field))
      → state'.disk ≡ state.disk
      → state'.tables ≡ state.tables
      → Body world state state' tenant func
          (read_fields none fields)
          (upload_body w c world state' tenant func fields)
  unfolding upload_body
  upload_body-Body world state state' tenant func fields d t =
      elim (Result-cases (read_fields none fields)) [
        | inr (e, p) ↦ rw (p, upload_body) (d, t, (e.body, refl))
        | inl (o, p) ↦ elim (Option-cases o) [
          | inl missing ↦
              rw (p, upload_body) (rw missing (d, t, (codes "missing wasm field", refl)))
          | inr (wasm, there) ↦ rw (p, upload_body) (rw there refl)
        ]
      ]

  -- The four ways of an upload under valid names, by what the authentication says.
  abbrev pub Authenticated :
      World w c
      → AppState w c
      → Bytes
      → Bytes
      → Result Reply (Option Bytes)
      → Option (Authenticator c w.digest) × Result AuthError AuthOutcome
      → AppState w c × Result Reply Bytes
      → Type 0
  Authenticated world state tenant func content (auth, ok wrong_tenant) r = Refuses 403 state r
  Authenticated world state tenant func content (auth, ok missing_or_unknown_key) r =
      Refuses 401 state r
  Authenticated world state tenant func content (auth, err e) r = Refuses 503 state r
  Authenticated world state tenant func content (auth, ok (authorized l)) r =
      Body world state (record state { auth = auth }) tenant func content r

  abbrev pub Guards :
      World w c
      → AppState w c
      → Bytes
      → Bytes
      → Result Reply (Option Bytes)
      → Option (Authenticator c w.digest) × Result AuthError AuthOutcome
      → AppState w c × Result Reply Bytes
      → Type 0
  Guards world state tenant func content a r =
      (((valid_name tenant ≡ false) ⊎ (valid_name func ≡ false)) × Refuses 400 state r)
      ⊎ ((valid_name tenant ≡ true)
          × (valid_name func ≡ true)
          × Authenticated world state tenant func content a r)

  upload_as-Authenticated :
      (world : World w c) (state : AppState w c) (tenant func : Bytes)
      (fields : List (Result ℕ Field))
      (a : Option (Authenticator c w.digest) × Result AuthError AuthOutcome)
      → Authenticated world state tenant func (read_fields none fields) a (
          upload_as w c world
            (record state { auth = a.0 })
            tenant
            func
            fields
            (limits_or_reply a.1))
  unfolding upload_as limits_or_reply
  upload_as-Authenticated world state tenant func fields (auth, ok wrong_tenant) =
      (refl, refl, (codes "forbidden", refl))
  upload_as-Authenticated world state tenant func fields (auth, ok missing_or_unknown_key) =
      (refl, refl, (codes "unauthorized", refl))
  upload_as-Authenticated world state tenant func fields (auth, err e) =
      (refl, refl, (codes "auth unavailable", refl))
  upload_as-Authenticated world state tenant func fields (auth, ok (authorized l)) =
      upload_body-Body world state (record state { auth = auth }) tenant func fields refl refl

  -- An upload under bad names is answered 400; one with a key of another tenant 403, with no or an
  -- unknown key 401, and one that could not be authenticated 503; then an unreadable body with its
  -- own status and one without a module 400. None of these touches tables or files. Only what is
  -- left, an upload by an authorised caller with a module, is staged and after_publish.
  pub upload-Guards :
      (world : World w c) (state : AppState w c) (tenant func : Bytes) (header : Option Bytes)
      (fields : List (Result ℕ Field))
      → Guards world state tenant func
          (read_fields none fields)
          (authenticate_request c w.digest state.auth world.clock world.answer tenant header)
          (upload w c world state tenant func header fields)
  unfolding upload
  upload-Guards world state tenant func header fields = elim (Bool-cases (valid_name tenant)) [
    | inr bad ↦
        rw (bad, upload)
          (inl (inl refl, (refl, refl, (codes "invalid tenant or function name", refl))))
    | inl vt ↦ elim (Bool-cases (valid_name func)) [
      | inr bad ↦
          rw (vt, upload)
            (rw bad (inl (inr refl, (refl, refl, (codes "invalid tenant or function name", refl)))))
      | inl vf ↦
          rw (vt, upload)
            (rw vf (
              inr (
                refl,
                refl,
                upload_as-Authenticated world state tenant func fields (
                    authenticate_request c w.digest state.auth world.clock world.answer tenant
                      header),
              )))
    ]
  ]
