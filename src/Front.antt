-- ===== src/Front.antt =====
-- What both front ends spell out alike, in crates/control/src/lib.rs and crates/host/src/lib.rs: the
-- bearer token of a request, and the check of it against the tenant of the path.
use warpline.Base.{ℕ, Option, none, some, Result, ok, err, Bytes, bytes_eq, pair_eq}
use Prim.Native.String.{String}
use warpline.Base.Text.{codes}
use warpline.Types.Limits.{Limits, default_limits}
use warpline.Types.Bearer.{parse_bearer}
use warpline.Registry.Lru.{Lru}
use warpline.Pg.Schema.{SqlError}
use warpline.Pg.Auth.{
  AuthOutcome, authorized, missing_or_unknown_key, wrong_tenant, AuthError, AuthRow, Cached, Clock,
  Authenticator, authenticate,
}

-- A status with a text, less the numbers and names that `format!` puts into some.
pub record Reply : Type 0 where
  pub status : ℕ
  pub body : Bytes

abbrev pub reply : ℕ → String → Reply
reply status body = record { status = status; body = codes body }

-- The `Authorization` header, where there is one of visible ASCII, as `to_str` gives it.
unfoldable pub bearer_from : Option Bytes → Option Bytes
bearer_from none = none
bearer_from (some value) = parse_bearer value

-- What an outcome means for the request: the limits, or the answer that ends it.
unfoldable pub limits_or_reply : Result AuthError AuthOutcome → Result Reply Limits
limits_or_reply (ok (authorized l)) = ok l
limits_or_reply (ok wrong_tenant) = err (reply 403 "forbidden")
limits_or_reply (ok missing_or_unknown_key) = err (reply 401 "unauthorized")
limits_or_reply (err e) = err (reply 503 "auth unavailable")

module _ (c : Lru (ℕ × Cached)) (digest : Bytes → Bytes) where
  -- `match &state.auth`: without Postgres there is no check, and the limits are the defaults.
  unfoldable pub authenticate_request :
      Option (Authenticator c digest)
      → Clock
      → Result SqlError (Option AuthRow)
      → Bytes
      → Option Bytes
      → Option (Authenticator c digest) × Result AuthError AuthOutcome
  authenticate_request none clock answer tenant header = (none, ok (authorized default_limits))
  authenticate_request (some auth) clock answer tenant header =
      let r = authenticate c digest auth clock answer tenant (bearer_from header) in (some r.0, r.1)
