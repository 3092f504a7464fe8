-- ===== src/Sandbox/Fetch/Allowed.antt =====
-- What `http_fetch` and the resolver of crates/core/src/sandbox.rs let through.
use warpline.Base.{
  ◌≡◌, refl, sym, ap, ◌∙◌, ◌≢◌, ◌⊎◌, inl, inr, Bool, true, false, not, List, [], ◌∷◌, ◌++◌, Option,
  none, some, arith, Bool-cases, Option-cases, All, keep, ok, err, Result-cases, Bytes, bytes_beq,
  bytes_beq_iff, bytes_eq, pair_eq,
}
use warpline.Base.Text.{codes}
use warpline.Types.Limits.{HostParser, Stored, trim_end_dots, trim_end_dots_idem}
use warpline.Sandbox.Address.{IpAddr, is_blocked_ip}
use warpline.Sandbox.Fetch.{
  Url, Request, Http, Incoming, FetchError, invalid_url, resolve, scheme_allowed, host_allowed,
  blocked_literal, check_url, http_fetch,
}

-- The entry of the allowlist that a host matches, up to dots at the end.
pub data Listed (host : Bytes) : List Bytes → Type 0 where
  first :
      (allowed : Bytes) (rest : List Bytes)
      → trim_end_dots allowed ≡ host
      → Listed host (allowed ∷ rest)
  later : (other : Bytes) (rest : List Bytes) → Listed host rest → Listed host (other ∷ rest)

host_allowed-Listed :
    (hosts : List Bytes) (host : Bytes) → host_allowed hosts host ≡ true → Listed host hosts
unfolding host_allowed
host_allowed-Listed [] host h = absurd (ground arith)
host_allowed-Listed (a ∷ as') host h = elim (Bool-cases (bytes_beq (trim_end_dots a) host)) [
  | inl e ↦ first a as' ((bytes_beq_iff (trim_end_dots a) host).0 e)
  | inr e ↦ later a as' (host_allowed-Listed as' host (rw e at h))
]

-- Private addresses are allowed, or the literal, if there is one, is not blocked.
abbrev pub Reachable : Bool → Option IpAddr → Type 0
Reachable true literal = Unit
Reachable false none = Unit
Reachable false (some ip) = is_blocked_ip ip ≡ false

-- What an accepted url has: an http scheme, a host on the allowlist, and no blocked address for a
-- literal host unless private addresses are allowed.
pub record Accepted (hosts : List Bytes) (allow_private : Bool) (url : Url) : Type 0 where
  pub scheme : (url.scheme ≡ codes "http") ⊎ (url.scheme ≡ codes "https")
  pub host : Listed (trim_end_dots url.host_str) hosts
  pub literal : Reachable allow_private url.ip_literal

scheme-cases : (s : Bytes) → scheme_allowed s ≡ true → (s ≡ codes "http") ⊎ (s ≡ codes "https")
unfolding scheme_allowed
scheme-cases s h = ground (arith, bytes_beq_iff s (codes "http"), bytes_beq_iff s (codes "https"))

literal-public :
    (allow_private : Bool) (o : Option IpAddr)
    → blocked_literal allow_private o ≡ none
    → Reachable allow_private o
unfolding blocked_literal
literal-public true o h = tt
literal-public false none h = tt
literal-public false (some ip) h = ground arith

check_url-Accepted :
    (hosts : List Bytes) (allow_private : Bool) (url : Url)
    → check_url hosts allow_private url ≡ ok tt
    → Accepted hosts allow_private url
unfolding check_url
check_url-Accepted hosts allow_private url h = record {
  scheme = scheme-cases url.scheme (ground arith);
  host = host_allowed-Listed hosts (trim_end_dots url.host_str) (ground arith);
  literal = literal-public allow_private url.ip_literal (ground arith);
}

-- The client with other answers.
abbrev pub with_send : Http → (Url → Bytes → Bytes → Option Incoming) → Http
with_send http send = record http { send = send }

-- A guest's request reaches the HTTP client only if its url parses, has scheme http or https, a
-- host on the allowlist up to dots at the end, and no blocked address for a literal host unless
-- private addresses are allowed: otherwise the call fails, and the same way with any other client.
pub http_fetch_cases :
    (http : Http) (send : Url → Bytes → Bytes → Option Incoming) (hosts : List Bytes)
    (allow_private : Bool) (req : Request)
    → ((url : Url) × (http.parse_url req.url ≡ some url) × Accepted hosts allow_private url)
      ⊎ ((e : FetchError) × (http_fetch http hosts allow_private req ≡ err e)
          × (http_fetch (with_send http send) hosts allow_private req ≡ err e))
unfolding http_fetch
http_fetch_cases http send hosts allow_private req = elim (Option-cases (http.parse_url req.url)) [
  | inl n ↦ inr (invalid_url, rw n refl, rw n refl)
  | inr (url, e) ↦ elim (Result-cases (check_url hosts allow_private url)) [
    | inl (t, accepted) ↦ inl (url, e, check_url-Accepted hosts allow_private url accepted)
    | inr (bad, refused) ↦ inr (bad, rw (e, refused) refl, rw (e, refused) refl)
  ]
]

keep-All :
    (addrs : List IpAddr)
    → All (λ a. is_blocked_ip a ≡ false) (keep (λ a. not (is_blocked_ip a)) addrs)
keep-All [] = tt
keep-All (a ∷ rest) = ground (arith, keep-All rest)

-- A name resolves, where private addresses are not allowed, to at least one address and to no
-- blocked one; it resolves to exactly the public ones among the answers.
pub resolve-public :
    (answers addrs : List IpAddr)
    → resolve false (some answers) ≡ some addrs
    → (addrs ≢ [])
      × (addrs ≡ keep (λ a. not (is_blocked_ip a)) answers)
      × All (λ a. is_blocked_ip a ≡ false) addrs
unfolding resolve
resolve-public answers addrs h =
    let eq : addrs ≡ keep (λ a. not (is_blocked_ip a)) answers = ground arith in
    ((λ e. ground arith), eq, rw eq (keep-All answers))

-- Each host that was given to the allowlist can be reached: a url whose host is the parsed form of
-- one of them passes the host check against what was stored.
pub Stored-host_allowed :
    (parse : HostParser) (before : List Bytes) (h : Bytes) (after outs : List Bytes) (host : Bytes)
    → Stored parse (before ++ h ∷ after) outs
    → parse h ≡ some host
    → host_allowed outs (trim_end_dots host) ≡ true
unfolding host_allowed
Stored-host_allowed parse [] h after (o ∷ os) host st e =
    let ((host', e', eq), clean, rest) = st in
    let same : host' ≡ host = ground arith in
    let trimmed : trim_end_dots o ≡ trim_end_dots host =
      ap trim_end_dots (sym eq) ∙ trim_end_dots_idem host' ∙ ap trim_end_dots same in
    ground (arith, (bytes_beq_iff (trim_end_dots o) (trim_end_dots host)).1 trimmed)
Stored-host_allowed parse [] h after [] host st e = absurd st
Stored-host_allowed parse (b ∷ before) h after (o ∷ os) host st e =
    ground (arith, Stored-host_allowed parse before h after os host st.2 e)
Stored-host_allowed parse (b ∷ before) h after [] host st e = absurd st
