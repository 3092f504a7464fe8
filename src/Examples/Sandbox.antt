-- ===== src/Examples/Sandbox.antt =====
-- Tests of crates/core/src/sandbox.rs.
use warpline.Base.{
  ℕ, ◌+◌, ◌≤◌, ◌<◌, ◌≡◌, refl, ◌↔◌, ◌⊎◌, true, false, List, [], ◌∷◌, ◌++◌, Option, none, some,
  arith, length, ok, err, map_err, Bytes, bytes_eq, pair_eq,
}
use warpline.Base.Text.{codes}
use warpline.Kv.MemKv.{new_mem_kv, mem_kv_store}
use warpline.Types.Limits.{HostParser, Stored, trim_end_dots}
use warpline.Types.Limiter.{memory_growing, table_growing, new_limiter}
use warpline.Sandbox.Address.{Ipv4Addr, Ipv6Addr, IpAddr, v4, v6, is_blocked_ipv4, is_blocked_ip}
use warpline.Sandbox.Address.Blocks.{IsIpv4, Reserved, number, is_blocked_ipv4_iff}
use warpline.Sandbox.Address.Embedded.{
  mapped, compatible, nat64, six_to_four, is_blocked_ip-embedded, CarriesNone,
}
use warpline.Sandbox.Text.{IsUtf8, one}
use warpline.Sandbox.Context.{HostCall, get, put, log, new_ctx, host_calls}
use warpline.Sandbox.Context.Quotas.{recorded, PutsCapped, LogCapped, host_calls-capped}
use warpline.Sandbox.Fetch.{
  Url, Request, Http, Incoming, FetchError, Chunks, done, chunk, resolve, read_body, http_fetch,
}
use warpline.Sandbox.Fetch.Body.{content, read_body_iff}
use warpline.Sandbox.Fetch.Allowed.{Accepted, with_send, http_fetch_cases}
use warpline.Sandbox.Budget.{
  call_limit, cpu_budget, Run, Event, tick, grow, grow_table, instantiated, returned, ended, start,
  run, run_from, step, budget_ticks_of, classify,
}
use warpline.Sandbox.Budget.Cutoff.{ticks_in, run_cut_off}
use warpline.Sandbox.Budget.FullBudget.{grown, run_full_budget}

abbrev metadata_service : Ipv4Addr
metadata_service = record { o0 = 169; o1 = 254; o2 = 169; o3 = 254 }

is_metadata-IsIpv4 : IsIpv4 metadata_service
is_metadata-IsIpv4 = omega arith

is_blocked_ipv4_iff_example :
    (is_blocked_ipv4 metadata_service ≡ true) ↔ Reserved (number metadata_service)
is_blocked_ipv4_iff_example = is_blocked_ipv4_iff metadata_service is_metadata-IsIpv4

is_blocked_ip-embedded_example :
    (is_blocked_ip (v6 (mapped metadata_service)) ≡ is_blocked_ip (v4 metadata_service))
    × (is_blocked_ip (v6 (compatible metadata_service)) ≡ is_blocked_ip (v4 metadata_service))
    × (is_blocked_ip (v6 (nat64 metadata_service)) ≡ is_blocked_ip (v4 metadata_service))
    × (is_blocked_ip (v6 (six_to_four metadata_service 1 2 3 4 5))
        ≡ is_blocked_ip (v4 metadata_service))
is_blocked_ip-embedded_example =
    is_blocked_ip-embedded metadata_service 1 2 3 4 5 is_metadata-IsIpv4

abbrev link_local_v6 : Ipv6Addr
link_local_v6 = record { s0 = 65152; s1 = 0; s2 = 0; s3 = 0; s4 = 0; s5 = 0; s6 = 0; s7 = 1 }

carries_none : CarriesNone link_local_v6
carries_none = ground arith

-- A lone first byte is no character, and neither is a surrogate or an overlong form.
no_lone : IsUtf8 (195 ∷ []) → ⊥
no_lone (one a h u) = ground arith

-- "aé"
abbrev a_acute : Bytes
a_acute = 97 ∷ 195 ∷ 169 ∷ []

abbrev some_calls : List (HostCall (recorded mem_kv_store))
some_calls =
    put (codes "k") (codes "v") ∷ get (codes "k") ∷ log (codes "WARN") (codes "disk is slow") ∷ []

host_calls-capped_example :
    let first =
      new_ctx
        (recorded mem_kv_store)
        (codes "acme")
        (codes "hello")
        (new_mem_kv, [])
        []
        false
        65536 in
    let end = host_calls (recorded mem_kv_store) first some_calls in
    PutsCapped (codes "acme") end.kv.1 × LogCapped end.logged
host_calls-capped_example =
    host_calls-capped mem_kv_store (codes "acme") (codes "hello") new_mem_kv [] false 65536
      some_calls

abbrev two_chunks : Chunks
two_chunks = chunk (codes "he") (chunk (codes "llo") done)

read_body_iff_example :
    (read_body [] two_chunks ≡ ok (codes "hello"))
    ↔ ((content two_chunks ≡ some (codes "hello")) × (length (codes "hello") ≤ 1048576))
read_body_iff_example = read_body_iff two_chunks (codes "hello") (omega arith, (omega arith, tt))

abbrev metadata_url : Url
metadata_url = record {
  scheme = codes "http";
  host_str = codes "169.254.169.254";
  ip_literal = some (v4 metadata_service);
  serialised = codes "http://169.254.169.254/";
}

abbrev silent : Http
silent = record {
  parse_url = λ s. some metadata_url;
  valid_method = λ m. true;
  send = λ u m b. none;
}

abbrev answers : Url → Bytes → Bytes → Option Incoming
answers u m b = some (record { status = 200; chunks = two_chunks })

abbrev request : Request
request = record { method = codes "GET"; url = codes "http://169.254.169.254/"; body = [] }

http_fetch_cases_example :
    ((url : Url) × (silent.parse_url request.url ≡ some url)
      × Accepted (codes "169.254.169.254" ∷ []) false url)
    ⊎ ((e : FetchError) × (http_fetch silent (codes "169.254.169.254" ∷ []) false request ≡ err e)
        × (http_fetch (with_send silent answers) (codes "169.254.169.254" ∷ []) false request
            ≡ err e))
http_fetch_cases_example =
    http_fetch_cases silent answers (codes "169.254.169.254" ∷ []) false request

abbrev public_address : IpAddr
public_address = v4 (record { o0 = 93; o1 = 184; o2 = 216; o3 = 34 })

abbrev dns_answers : List IpAddr
dns_answers = v4 metadata_service ∷ public_address ∷ []

resolved : resolve false (some dns_answers) ≡ some (public_address ∷ [])
unfolding resolve is_blocked_ip is_blocked_ipv4
resolved = refl

abbrev parse_any : HostParser
parse_any h = some h

one_host-Stored : Stored parse_any (codes "b.io." ∷ []) (codes "b.io" ∷ [])
unfolding trim_end_dots
one_host-Stored = ((codes "b.io.", refl, refl), refl, tt)

abbrev busy : List Event
busy = tick ∷ grow 0 65536 none ∷ instantiated (ok tt) ∷ tick ∷ tick ∷ tick ∷ []

run_cut_off_example : (t : ℕ) × (r : Run) × (run 1 1048576 busy ≡ ended t r) × (t ≤ 1 + 3)
run_cut_off_example = run_cut_off 1 1048576 busy (omega arith) (omega arith) (omega arith)

abbrev starting : List Event
starting = grow 0 131072 none ∷ grow_table 0 8 none ∷ tick ∷ []

abbrev working : List Event
working = tick ∷ tick ∷ grow 131072 2097152 none ∷ tick ∷ grow 131072 196608 none ∷ tick ∷ tick ∷ []

run_full_budget_example :
    let limiter = grown (grown (new_limiter 1048576) starting) working in
    (run 5 1048576
        (starting ++ (instantiated (ok tt) ∷ (working ++ (returned (ok (codes "hi")) ∷ []))))
      ≡ ended (ticks_in starting + ticks_in working) (record {
        result = map_err (λ e. classify e limiter) (ok (codes "hi"));
        mem_peak = limiter.peak_bytes;
      }))
    × ((ticks_in working < 5)
        ⊎ (run 5 1048576 (starting ++ (instantiated (ok tt) ∷ (working ++ (tick ∷ []))))
            ≡ ended
                (ticks_in starting + 5 + 1)
                (record { result = err cpu_budget; mem_peak = limiter.peak_bytes })))
run_full_budget_example =
    run_full_budget 5 1048576 starting working [] (ok (codes "hi")) (omega arith) (omega arith)
      (tt, (tt, (tt, tt))) (omega arith) (tt, (tt, (tt, (tt, (tt, (tt, (tt, tt))))))) (omega arith)

-- The memory that the second request is refused for is not in the peak.
peak_test : (grown (grown (new_limiter 1048576) starting) working).peak_bytes ≡ 196608
unfolding memory_growing table_growing
peak_test = refl

abbrev cut_run : Run
cut_run = record { result = err cpu_budget; mem_peak = 65536 }

busy_test : run 1 1048576 busy ≡ ended 3 cut_run
unfolding run run_from step start budget_ticks_of call_limit classify memory_growing
busy_test = refl
