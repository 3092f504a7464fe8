-- ===== src/Examples/Types.antt =====
-- Tests of crates/core/src/types.rs.
use warpline.Base.{
  ℕ, ◌≤◌, ◌≡◌, refl, ◌≢◌, true, false, List, [], ◌∷◌, none, some, arith, all, ok, Bytes, bytes_eq,
  pair_eq,
}
use warpline.Base.Text.{codes}
use warpline.Base.Trim.{trim_end, trim_start, starts_clean, ends_clean}
use warpline.Types.Names.{valid_name}
use warpline.Types.Limits.{
  HostParser, normalise_hosts, Limits, default_limits, with_allowed_hosts, trim_end_dots,
}
use warpline.Types.Bearer.{
  parse_scheme, split_whitespace, is_whitespace, eq_ignore_ascii_case, bearer, parse_bearer,
}
use warpline.Types.Limiter.{new_limiter, memory_growing}
use warpline.Types.Limiter.Combined.{
  Memories, Reach, here, next, created, total_size, fresh, combined-le-cap,
}

names_test : (valid_name (codes "acme-1") ≡ true) × (valid_name (codes "-acme") ≡ false)
unfolding valid_name
names_test = (refl, refl)

-- A parser that takes every host as it is, but for the empty one.
abbrev parse_any : HostParser
parse_any [] = none
parse_any (b ∷ s) = some (b ∷ s)

abbrev example_hosts : List Bytes
example_hosts = codes "api.example.com." ∷ codes "b.io" ∷ []

abbrev with_hosts : Limits
with_hosts = record default_limits { allowed_hosts = codes "api.example.com" ∷ codes "b.io" ∷ [] }

with_hosts_test : with_allowed_hosts parse_any default_limits example_hosts ≡ ok with_hosts
unfolding with_allowed_hosts trim_end_dots normalise_hosts
with_hosts_test = refl

bearer_test : parse_bearer (codes " BeaRer  tok ") ≡ some (codes "tok")
unfolding parse_bearer parse_scheme split_whitespace trim_end trim_start is_whitespace
bearer_test = refl

white : (is_whitespace 32 ≡ true) × (all is_whitespace (32 ∷ []) ≡ true)
unfolding is_whitespace
white = (refl, refl)

same_scheme : eq_ignore_ascii_case (codes "BeaRer") bearer ≡ true
unfolding eq_ignore_ascii_case
same_scheme = refl

clean_token :
    (starts_clean is_whitespace (codes "tok") ≡ true)
    × (ends_clean is_whitespace (codes "tok") ≡ true)
unfolding is_whitespace
clean_token = (refl, refl)

some_token : codes "tok" ≢ []
some_token e = ground arith

abbrev page : ℕ
page = 65536

abbrev one_page : Memories
one_page = record {
  sizes = page ∷ [];
  limiter = record (new_limiter 100000) { total_bytes = page; peak_bytes = page };
}

one_page_reached : Reach (fresh 100000) one_page
unfolding memory_growing
one_page_reached = next here (created page none (omega arith) refl refl refl)

combined-le-cap_example :
    (total_size one_page.sizes ≤ one_page.limiter.peak_bytes)
    × (one_page.limiter.peak_bytes ≤ 100000)
combined-le-cap_example = combined-le-cap 100000 (omega arith) one_page_reached
