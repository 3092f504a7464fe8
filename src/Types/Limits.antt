-- ===== src/Types/Limits.antt =====
-- The limit validators and `Limits` of crates/core/src/types.rs, and `validate_limits` of
-- crates/core/src/runtime.rs.
use warpline.Base.{
  ℕ, ◌*◌, ◌≤◌, ◌<◌, ◌≡◌, refl, ◌↔◌, ◌⊎◌, inl, inr, true, List, [], ◌∷◌, Option, some, arith, ltb,
  ◌==◌, if◌then◌else◌, Option-cases, length, ℤ, in_range, i64_or_max, Result, ok, err, ◌>>=◌, ◌>>◌,
  ok_or, Result-cases, Bytes, bytes_eq, pair_eq,
}
use warpline.Base.Trim.{trim_end, ends_clean, trim_end-clean, trim_end_of_clean}

abbrev pub min_cpu_budget_ms : ℕ
min_cpu_budget_ms = 1

abbrev pub max_cpu_budget_ms : ℕ
max_cpu_budget_ms = 10_000

abbrev pub min_mem_cap_bytes : ℕ
min_mem_cap_bytes = 1024 * 1024

abbrev pub max_mem_cap_bytes : ℕ
max_mem_cap_bytes = 512 * 1024 * 1024

abbrev pub max_allowed_hosts : ℕ
max_allowed_hosts = 64

pub data ConfigError : Type 0 where
  cpu_budget_range mem_cap_range too_many_hosts : ConfigError
  invalid_host : Bytes → ConfigError

unfoldable pub validate_cpu_budget_ms : ℤ → Result ConfigError (Unit {0})
validate_cpu_budget_ms v =
    if in_range min_cpu_budget_ms max_cpu_budget_ms v then ok tt else err cpu_budget_range

unfoldable pub validate_mem_cap_bytes : ℤ → Result ConfigError (Unit {0})
validate_mem_cap_bytes v =
    if in_range min_mem_cap_bytes max_mem_cap_bytes v then ok tt else err mem_cap_range

-- `url::Host::parse` followed by `to_string` and `to_lowercase`, of the url crate and of the
-- Unicode tables: `none` where the parse fails.
abbrev pub HostParser : Type 0
HostParser = Bytes → Option Bytes

-- `trim_end_matches('.')`.
unfoldable pub trim_end_dots : Bytes → Bytes
unfolding trim_end
trim_end_dots = trim_end (λ b. b == b'.')

unfoldable pub normalise_hosts : HostParser → List Bytes → Result ConfigError (List Bytes)
normalise_hosts parse [] = ok []
normalise_hosts parse (h ∷ hs) = do
  host ← ok_or (invalid_host h) (parse h)
  rest ← normalise_hosts parse hs
  ok (trim_end_dots host ∷ rest)

unfoldable pub validate_allowed_hosts : HostParser → List Bytes → Result ConfigError (List Bytes)
validate_allowed_hosts parse hosts =
    if ltb max_allowed_hosts (length hosts) then err too_many_hosts else normalise_hosts parse hosts

pub record Limits : Type 0 where
  pub cpu_budget_ms : ℕ
  pub mem_cap_bytes : ℕ
  pub allowed_hosts : List Bytes

-- `Limits::default`.
abbrev pub default_limits : Limits
default_limits = record {
  cpu_budget_ms = 100;
  mem_cap_bytes = 64 * 1024 * 1024;
  allowed_hosts = [];
}

-- `Limits::new`.
unfoldable pub new_limits : ℕ → ℕ → Result ConfigError Limits
unfolding validate_cpu_budget_ms validate_mem_cap_bytes
new_limits cpu mem = do
  validate_cpu_budget_ms (i64_or_max cpu)
  validate_mem_cap_bytes (i64_or_max mem)
  ok (record { cpu_budget_ms = cpu; mem_cap_bytes = mem; allowed_hosts = [] })

unfoldable pub with_allowed_hosts : HostParser → Limits → List Bytes → Result ConfigError Limits
unfolding validate_allowed_hosts
with_allowed_hosts parse l hosts = do
  checked ← validate_allowed_hosts parse hosts
  ok (record l { allowed_hosts = checked })

-- `validate_limits` of the runtime: the fields are public, so they are checked again.
unfoldable pub validate_limits : Limits → Result ConfigError (Unit {0})
unfolding validate_cpu_budget_ms validate_mem_cap_bytes
validate_limits l = do
  validate_cpu_budget_ms (i64_or_max l.cpu_budget_ms)
  validate_mem_cap_bytes (i64_or_max l.mem_cap_bytes)

-- The documented ranges, which the columns' CHECK constraints repeat.
pub record InRange (l : Limits) : Type 0 where
  pub cpu_low : 1 ≤ l.cpu_budget_ms
  pub cpu_high : l.cpu_budget_ms ≤ 10000
  pub mem_low : 1048576 ≤ l.mem_cap_bytes
  pub mem_high : l.mem_cap_bytes ≤ 536870912

-- The runtime's check of a call's limits accepts exactly the limits whose CPU budget is 1 to 10000
-- ms and whose memory cap is 1 to 512 MiB, also for words above `i64::MAX`.
pub validate_limits_iff : (l : Limits) → (validate_limits l ≡ ok tt) ↔ InRange l
unfolding validate_limits
validate_limits_iff l = ground arith

-- `Limits::new` returns exactly the two values that it was given, with no host, when they are in
-- range; a CPU budget out of range is reported first, then a memory cap out of range.
pub new_limits_cases :
    (cpu mem : ℕ)
    → let l : Limits = record { cpu_budget_ms = cpu; mem_cap_bytes = mem; allowed_hosts = [] } in
      (InRange l × (new_limits cpu mem ≡ ok l))
      ⊎ (((cpu < 1) ⊎ (10000 < cpu)) × (new_limits cpu mem ≡ err cpu_budget_range))
      ⊎ ((1 ≤ cpu)
          × (cpu ≤ 10000)
          × ((mem < 1048576) ⊎ (536870912 < mem))
          × (new_limits cpu mem ≡ err mem_cap_range))
unfolding new_limits
new_limits_cases cpu mem = ground arith

-- One stored host for each host given, in order: what the parser makes of it, without the dots
-- that it ends in, and so one that ends in no dot.
abbrev pub Stored : HostParser → List Bytes → List Bytes → Type 0
Stored parse [] [] = Unit
Stored parse [] (o ∷ os) = ⊥
Stored parse (h ∷ hs) [] = ⊥
Stored parse (h ∷ hs) (o ∷ os) =
    ((host : Bytes) × (parse h ≡ some host) × (trim_end_dots host ≡ o))
    × (ends_clean (λ b. b == b'.') o ≡ true)
    × Stored parse hs os

trim_end_dots-clean : (h : Bytes) → ends_clean (λ b. b == b'.') (trim_end_dots h) ≡ true
unfolding trim_end_dots
trim_end_dots-clean h = trim_end-clean (λ b. b == b'.') h

pub trim_end_dots_idem : (h : Bytes) → trim_end_dots (trim_end_dots h) ≡ trim_end_dots h
unfolding trim_end_dots
trim_end_dots_idem h =
    trim_end_of_clean (λ b. b == b'.') (trim_end_dots h) (trim_end-clean (λ b. b == b'.') h)

normalise_hosts-Stored :
    (parse : HostParser) (hs outs : List Bytes)
    → normalise_hosts parse hs ≡ ok outs
    → Stored parse hs outs
unfolding normalise_hosts
normalise_hosts-Stored parse [] [] e = tt
normalise_hosts-Stored parse [] (o ∷ os) e = ground arith
normalise_hosts-Stored parse (h ∷ hs) outs e = elim (Option-cases (parse h)) [
  | inl missing ↦ absurd (ground arith)
  | inr (host, found) ↦ elim (Result-cases (normalise_hosts parse hs)) [
    | inr (bad, failed) ↦ absurd (ground arith)
    | inl (rest, done) ↦
        let eq : outs ≡ trim_end_dots host ∷ rest = ground arith in
        rw eq
          ((host, found, refl), trim_end_dots-clean host, normalise_hosts-Stored parse hs rest done)
  ]
]

-- Setting the allowlist changes nothing but the hosts. It succeeds only for at most 64 hosts that
-- all parse, and stores their normal forms.
pub with_allowed_hosts-Stored :
    (parse : HostParser) (l : Limits) (hosts : List Bytes) (l' : Limits)
    → with_allowed_hosts parse l hosts ≡ ok l'
    → (length hosts ≤ 64)
      × (l'.cpu_budget_ms ≡ l.cpu_budget_ms)
      × (l'.mem_cap_bytes ≡ l.mem_cap_bytes)
      × Stored parse hosts l'.allowed_hosts
unfolding with_allowed_hosts
with_allowed_hosts-Stored parse l hosts l' e =
    ground (arith, normalise_hosts-Stored parse hosts l'.allowed_hosts)
