-- ===== src/Control/Admin/Guarded.antt =====
-- Who may change tenants by `admin_create_tenant` of crates/control/src/lib.rs.
use warpline.Base.{
  ℕ, ◌≡◌, refl, ◌≢◌, ◌↔◌, ◌⊎◌, inl, inr, Bool, true, false, [], Option, none, some, arith,
  Bool-cases, Option-cases, ℤ, pos, negsuc, Result, ok, err, map_err, Result-cases, Bytes, bytes_eq,
  pair_eq,
}
use warpline.Types.Names.{valid_name}
use warpline.Types.Limits.{HostParser, ConfigError, validate_cpu_budget_ms, validate_mem_cap_bytes}
use warpline.Pg.Schema.{Uuid, Database}
use warpline.Pg.Admin.{IssuedKey, LimitsPatch, Network, patch_tenant}
use warpline.Front.{Reply, reply, bearer_from}
use warpline.Control.Token.{AreBytes, constant_time_eq_iff}
use warpline.Control.Admin.{
  AdminConfigBody, is_admin, checked_field, patch_of_body, admin_error, read_body_config,
  apply_config, admin_create_tenant,
}

-- A field of the patch is the field of the body, a number that is not negative.
abbrev pub IsCast : Option ℤ → Option ℕ → Type 0
IsCast none none = Unit
IsCast none (some n) = ⊥
IsCast (some v) none = ⊥
IsCast (some v) (some n) = v ≡ pos n

checked_cpu :
    (v : Option ℤ) (n : Option ℕ) → checked_field validate_cpu_budget_ms v ≡ ok n → IsCast v n
unfolding checked_field validate_cpu_budget_ms
checked_cpu none none h = tt
checked_cpu none (some n) h = absurd (ground arith)
checked_cpu (some (pos v)) none h = absurd (ground arith)
checked_cpu (some (pos v)) (some n) h = ground arith
checked_cpu (some (negsuc v)) n h = absurd (ground arith)

checked_mem :
    (v : Option ℤ) (n : Option ℕ) → checked_field validate_mem_cap_bytes v ≡ ok n → IsCast v n
unfolding checked_field validate_mem_cap_bytes
checked_mem none none h = tt
checked_mem none (some n) h = absurd (ground arith)
checked_mem (some (pos v)) none h = absurd (ground arith)
checked_mem (some (pos v)) (some n) h = ground arith
checked_mem (some (negsuc v)) n h = absurd (ground arith)

-- The patch says what the body says, with no number changed by its cast.
pub record IsPatchOf (cfg : AdminConfigBody) (patch : LimitsPatch) : Type 0 where
  pub hosts : patch.allowed_hosts ≡ cfg.allowed_hosts
  pub cpu : IsCast cfg.cpu_budget_ms patch.cpu_budget_ms
  pub mem : IsCast cfg.mem_cap_bytes patch.mem_cap_bytes

patch_of_body-IsPatchOf :
    (cfg : AdminConfigBody) (patch : LimitsPatch)
    → patch_of_body cfg ≡ ok patch
    → IsPatchOf cfg patch
unfolding patch_of_body
patch_of_body-IsPatchOf cfg patch h =
    elim (Result-cases (checked_field validate_cpu_budget_ms cfg.cpu_budget_ms)) [
      | inr (e, p) ↦ absurd (ground arith)
      | inl (cpu, p) ↦
          elim (Result-cases (checked_field validate_mem_cap_bytes cfg.mem_cap_bytes)) [
            | inr (e, q) ↦ absurd (ground arith)
            | inl (mem, q) ↦
                let made : patch ≡ record {
                  allowed_hosts = cfg.allowed_hosts;
                  cpu_budget_ms = cpu;
                  mem_cap_bytes = mem;
                } =
                  ground arith in
                rw made (record {
                  hosts = refl;
                  cpu = checked_cpu cfg.cpu_budget_ms cpu p;
                  mem = checked_mem cfg.mem_cap_bytes mem q;
                })
          ]
    ]

module _ (from_slice : Bytes → Option AdminConfigBody) (parse : HostParser)
    (digest hex_encode : Bytes → Bytes) where
  abbrev pub Refused : ℕ → Database → Database × Result Reply IssuedKey → Type 0
  Refused status tables r =
      (r.0 ≡ tables) × ((body : Bytes) × (r.1 ≡ err (record { status = status; body = body })))

  -- The request that reaches `patch_tenant`, and the patch that it gets.
  abbrev pub Patches :
      Bytes
      → Network
      → Uuid
      → Result Bytes Bytes
      → Database
      → Bytes
      → Database × Result Reply IssuedKey
      → Type 0
  Patches body net new_id random tables tenant r =
      (cfg : AdminConfigBody) × (patch : LimitsPatch) × (read_body_config from_slice parse digest
          hex_encode body
        ≡ some cfg)
      × IsPatchOf cfg patch
      × (r.0 ≡ (patch_tenant parse digest hex_encode net new_id random tables tenant patch).0)
      × (r.1
          ≡ map_err admin_error
              (patch_tenant parse digest hex_encode net new_id random tables tenant patch).1)

  -- A body that is no configuration, or that has a number out of range.
  abbrev pub Malformed : Bytes → Type 0
  Malformed body =
      (read_body_config from_slice parse digest hex_encode body ≡ none)
      ⊎ ((cfg : AdminConfigBody) × (e : ConfigError) × (read_body_config from_slice parse digest
              hex_encode body
            ≡ some cfg)
          × (patch_of_body cfg ≡ err e))

  -- What a caller with the token gets.
  abbrev pub Admitted :
      Bool
      → Bytes
      → Network
      → Uuid
      → Result Bytes Bytes
      → Database
      → Bytes
      → Database × Result Reply IssuedKey
      → Type 0
  Admitted has_database body net new_id random tables tenant r =
      ((valid_name tenant ≡ false) × Refused 400 tables r)
      ⊎ ((valid_name tenant ≡ true) × (has_database ≡ false) × Refused 503 tables r)
      ⊎ ((valid_name tenant ≡ true)
          × (has_database ≡ true)
          × ((Malformed body × Refused 400 tables r)
              ⊎ Patches body net new_id random tables tenant r))

  apply_config-cases :
      (net : Network) (new_id : Uuid) (random : Result Bytes Bytes) (tables : Database)
      (tenant body : Bytes) (cfg : AdminConfigBody)
      → read_body_config from_slice parse digest hex_encode body ≡ some cfg
      → let r =
          apply_config from_slice parse digest hex_encode net new_id random tables tenant cfg in
        (Malformed body × Refused 400 tables r) ⊎ Patches body net new_id random tables tenant r
  unfolding apply_config
  apply_config-cases net new_id random tables tenant body cfg h =
      elim (Result-cases (patch_of_body cfg)) [
        | inr (e, p) ↦ rw (p, apply_config) (inl (inr (cfg, e, h, p), (refl, (_, refl))))
        | inl (patch, p) ↦
            rw (p, apply_config)
              (inr (cfg, patch, h, patch_of_body-IsPatchOf cfg patch p, refl, refl))
      ]

  -- The same by the body, once the name and the database are there.
  admin_body :
      (net : Network) (new_id : Uuid) (random : Result Bytes Bytes) (tables : Database)
      (tenant body : Bytes)
      → let r : Database × Result Reply IssuedKey =
          elim (read_body_config from_slice parse digest hex_encode body) [
            | none ↦ (tables, err (reply 400 "invalid json body"))
            | some cfg ↦
                apply_config from_slice parse digest hex_encode net new_id random tables tenant cfg
          ] in
        (Malformed body × Refused 400 tables r) ⊎ Patches body net new_id random tables tenant r
  admin_body net new_id random tables tenant body =
      elim (Option-cases (read_body_config from_slice parse digest hex_encode body)) [
        | inl bad ↦ inl (inl bad, rw bad (refl, (_, refl)))
        | inr (cfg, p) ↦ elim (apply_config-cases net new_id random tables tenant body cfg p) [
          | inl (m, refused) ↦ inl (m, rw p refused)
          | inr patches ↦ inr (rw p (rw p at patches))
        ]
      ]

  admitted :
      (expected_token tenant body : Bytes) (header : Option Bytes) (has_database : Bool)
      (net : Network) (new_id : Uuid) (random : Result Bytes Bytes) (tables : Database)
      → is_admin expected_token (bearer_from header) ≡ true
      → Admitted has_database body net new_id random tables tenant (
          admin_create_tenant from_slice parse digest hex_encode
            (some expected_token)
            has_database
            net
            new_id
            random
            tables
            tenant
            header
            body)
  unfolding admin_create_tenant
  admitted expected_token tenant body header has_database net new_id random tables a =
      elim (Bool-cases (valid_name tenant)) [
        | inr bad ↦ rw (a, admin_create_tenant) (rw bad (inl (refl, (refl, (_, refl)))))
        | inl good ↦ elim (Bool-cases has_database) [
          | inr missing ↦
              rw (a, admin_create_tenant)
                (rw good (rw missing (inr (inl (refl, refl, (refl, (_, refl)))))))
          | inl there ↦
              rw (a, admin_create_tenant)
                (rw good (
                  rw there
                    (inr (inr (refl, refl, admin_body net new_id random tables tenant body)))))
        ]
      ]

  abbrev pub TokenBytes : Option Bytes → Type 0
  TokenBytes none = Unit
  TokenBytes (some p) = AreBytes p

  -- The answers by the token that the server has and the one that the caller gives.
  abbrev pub AdminAnswers :
      Option Bytes
      → Option Bytes
      → Bool
      → Bytes
      → Network
      → Uuid
      → Result Bytes Bytes
      → Database
      → Bytes
      → Database × Result Reply IssuedKey
      → Type 0
  AdminAnswers none provided has_database body net new_id random tables tenant r =
      Refused 404 tables r
  AdminAnswers (some token) provided has_database body net new_id random tables tenant r =
      ((provided ≢ some token) × Refused 401 tables r)
      ⊎ ((provided ≡ some token) × Admitted has_database body net new_id random tables tenant r)

  is_admin_iff :
      (token : Bytes) (provided : Option Bytes)
      → AreBytes token
      → TokenBytes provided
      → (is_admin token provided ≡ true) ↔ (provided ≡ some token)
  unfolding is_admin
  is_admin_iff token none t p = ground arith
  is_admin_iff token (some s) t p = ground (arith, constant_time_eq_iff s token p t)

  -- Without an admin token the route answers 404; a caller who does not give exactly the token gets
  -- 401. Neither changes the tables, nor does a bad name (400), a server without a
  -- database (503) or a body that does not parse or is out of range (400). All else is one call of `patch_tenant` under a valid name, with a patch that
  -- says what the body says and whose numbers no cast has changed. The tokens are bytes.
  pub admin_create_tenant-AdminAnswers :
      (admin_token : Option Bytes) (tenant body : Bytes) (header : Option Bytes)
      (has_database : Bool) (net : Network) (new_id : Uuid) (random : Result Bytes Bytes)
      (tables : Database)
      → TokenBytes admin_token
      → TokenBytes (bearer_from header)
      → AdminAnswers admin_token
          (bearer_from header)
          has_database
          body
          net
          new_id
          random
          tables
          tenant
          (admin_create_tenant from_slice parse digest hex_encode admin_token has_database net
            new_id random tables tenant header body)
  unfolding admin_create_tenant
  admin_create_tenant-AdminAnswers none tenant body header has_database net new_id random tables t
        p =
      (refl, ([], refl))
  admin_create_tenant-AdminAnswers (some token) tenant body header has_database net new_id random
        tables t p =
      elim (Bool-cases (is_admin token (bearer_from header))) [
        | inl good ↦ inr (
          (is_admin_iff token (bearer_from header) t p).0 good,
          admitted token tenant body header has_database net new_id random tables good,
        )
        | inr bad ↦
            let other : bearer_from header ≢ some token =
              λ e. absurd (ground (arith, (is_admin_iff token (bearer_from header) t p).1 e)) in
            inl (other, rw (bad, admin_create_tenant) (refl, (_, refl)))
      ]
