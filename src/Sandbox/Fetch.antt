-- ===== src/Sandbox/Fetch.antt =====
-- The resolver `GuardedResolver` and the outbound call `http_fetch` of crates/core/src/sandbox.rs.
-- The url crate, DNS and the HTTP client are parameters.
pub mod Body
pub mod Allowed
use warpline.Base.{
  ℕ, zero, suc, ◌+◌, ◌-◌, ◌*◌, ◌/◌, ◌%◌, ◌^◌, ◌≤◌, ◌<◌, min, max, ◌≡◌, refl, sym, ap, ◌∙◌, ◌≢◌, ◌↔◌,
  ◌⊎◌, inl, inr, Bool, true, false, not, ◌&&◌, ◌||◌, List, [], ◌∷◌, ◌++◌, map, Option, none, some,
  arith, ltb, leb, ◌==◌, if◌then◌else◌, ltb→lt, lt→ltb, leb→le, le→leb, ==_iff, Bool-cases,
  Option-cases, Bool-eq_of_iff, length, take, drop, replicate, length-append, length-take,
  take-append-drop, all, any, All, keep, sum_by, length-keep-le, word_mod, word_max, i64_max,
  wrapping_add, wrapping_sub, wrapping_mul, saturating_sub, saturating_add, ℤ, pos, negsuc,
  in_range, i64_or_max, Result, ok, err, ◌>>=◌, ◌>>◌, map_err, ok_or, ensure, is_ok, Result-cases,
  Eq, Bytes, bytes_beq, bytes_beq_iff, bytes_eq, pair_beq, pair_beq_iff, pair_eq, lookup, insert,
  remove, lookup-insert, lookup-remove, lookup-insert_self, weigh, weight_at, weigh-insert,
  weight_at-le,
}
use warpline.Base.Text.{codes}
use warpline.Types.Limits.{HostParser, Stored, trim_end_dots}
use warpline.Sandbox.Address.{IpAddr, v4, v6, Ipv4Addr, Ipv6Addr, is_blocked_ip}

abbrev pub max_http_body_bytes : ℕ
max_http_body_bytes = 1024 * 1024

-- What `url::Url::parse` gives: the scheme, `host_str` (`unwrap_or_default`) and the host where it
-- is an IP literal.
pub record Url : Type 0 where
  pub scheme : Bytes
  pub host_str : Bytes
  pub ip_literal : Option IpAddr
  pub serialised : Bytes

pub record Request : Type 0 where
  pub method : Bytes
  pub url : Bytes
  pub body : Bytes

pub record Response : Type 0 where
  pub status : ℕ
  pub body : Bytes

pub data FetchError : Type 0 where
  invalid_url request_failed body_read_failed invalid_method body_too_large : FetchError
  scheme_not_allowed host_not_allowed : Bytes → FetchError
  blocked_address : IpAddr → FetchError

-- The body of a response as it arrives: chunks, then the end or a read error.
pub data Chunks : Type 0 where
  done : Chunks
  broken : Chunks
  chunk : Bytes → Chunks → Chunks

-- The response of the client: its status and the body to be read.
pub record Incoming : Type 0 where
  pub status : ℕ
  pub chunks : Chunks

-- The url crate's parser, `Method::from_bytes`, and `send` of the shared client.
pub record Http : Type 0 where
  pub parse_url : Bytes → Option Url
  pub valid_method : Bytes → Bool
  pub send : Url → Bytes → Bytes → Option Incoming

-- `GuardedResolver::resolve` on what DNS answers.
unfoldable pub resolve : Bool → Option (List IpAddr) → Option (List IpAddr)
resolve allow_private none = none
resolve allow_private (some addrs) =
    if allow_private
    then some addrs
    else elim (keep (λ a. not (is_blocked_ip a)) addrs) [ [] ↦ none | a ∷ rest ↦ some (a ∷ rest) ]

-- The `while let Some(chunk)` loop.
unfoldable pub read_body : Bytes → Chunks → Result FetchError Bytes
read_body body done = ok body
read_body body broken = err body_read_failed
read_body body (chunk c rest) =
    let more = read_body (body ++ c) rest in
    if ltb max_http_body_bytes (wrapping_add (length body) (length c))
    then err body_too_large
    else more

unfoldable pub scheme_allowed : Bytes → Bool
scheme_allowed s = bytes_beq s (codes "http") || bytes_beq s (codes "https")

-- `allowed_hosts.iter().any(|allowed| allowed.trim_end_matches('.') == host)`.
unfoldable pub host_allowed : List Bytes → Bytes → Bool
host_allowed hosts host = any (λ allowed. bytes_beq (trim_end_dots allowed) host) hosts

-- The literal that is refused where private addresses are.
unfoldable pub blocked_literal : Bool → Option IpAddr → Option IpAddr
blocked_literal allow_private none = none
blocked_literal allow_private (some ip) =
    if allow_private then none else if is_blocked_ip ip then some ip else none

-- The checks on the parsed url, before anything is sent.
unfoldable pub check_url : List Bytes → Bool → Url → Result FetchError (Unit {0})
check_url allowed_hosts allow_private url =
    let host = trim_end_dots url.host_str in
    if not (scheme_allowed url.scheme)
    then err (scheme_not_allowed url.scheme)
    else if not (host_allowed allowed_hosts host)
    then err (host_not_allowed host)
    else elim (blocked_literal allow_private url.ip_literal) [
      | none ↦ ok tt
      | some ip ↦ err (blocked_address ip)
    ]

-- From the request to the response, once the url is accepted.
unfoldable pub transfer : Http → Url → Request → Result FetchError Response
transfer http url req = do
  ensure (http.valid_method req.method) invalid_method
  incoming ← ok_or request_failed (http.send url req.method req.body)
  body ← read_body [] incoming.chunks
  ok (record { status = incoming.status; body = body })

unfoldable pub http_fetch : Http → List Bytes → Bool → Request → Result FetchError Response
http_fetch http allowed_hosts allow_private req = do
  url ← ok_or invalid_url (http.parse_url req.url)
  check_url allowed_hosts allow_private url
  transfer http url req
