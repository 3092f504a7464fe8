-- ===== src/Examples/Kv.antt =====
-- Tests of crates/core/src/kv.rs.
use warpline.Base.{
  ◌+◌, ◌-◌, ◌≤◌, ◌<◌, ◌≡◌, refl, ◌≢◌, ◌⊎◌, some, arith, if◌then◌else◌, length, ok, err, Bytes,
  bytes_eq, pair_beq, pair_eq, lookup, insert,
}
use warpline.Base.Text.{codes}
use warpline.Kv.{quota_exceeded}
use warpline.Kv.MemKv.{MemKv, cost, with_capacity_bytes, cost_or_zero, get, put, store, new_used}
use warpline.Kv.MemKv.Quota.{
  WithinQuota, used, new-WithinQuota, put-WithinQuota, put_cases, get-put,
}

abbrev acme : Bytes
acme = codes "acme"

abbrev other_tenant : Bytes
other_tenant = codes "zeta"

abbrev k : Bytes
k = codes "k"

abbrev before : MemKv
before = with_capacity_bytes 150

abbrev full : MemKv
full = (put before acme k (codes "value")).0

before-WithinQuota : WithinQuota before
before-WithinQuota = new-WithinQuota 150 (omega arith)

full-WithinQuota : WithinQuota full
full-WithinQuota = put-WithinQuota before acme k (codes "value") before-WithinQuota (omega arith)

refused_test :
    put full acme (codes "j") (codes "more than there is room for now")
    ≡ (full, err (quota_exceeded 70 96 150))
unfolding put lookup insert new_used cost store
refused_test = refl

put_cases_example :
    let old = cost_or_zero k (lookup (acme, k) full.entries) in
    let new = 64 + length k + length (codes "new") in
    ((full.tenant_cap_bytes < used full acme - old + new)
      × (put full acme k (codes "new")
          ≡ (full, err (quota_exceeded (used full acme) new full.tenant_cap_bytes))))
    ⊎ ((used full acme - old + new ≤ full.tenant_cap_bytes)
        × (put full acme k (codes "new") ≡ (store full acme k (codes "new"), ok tt)))
put_cases_example = put_cases full acme k (codes "new") full-WithinQuota (omega arith)

put-WithinQuota_example : WithinQuota (put full acme k (codes "new")).0
put-WithinQuota_example = put-WithinQuota full acme k (codes "new") full-WithinQuota (omega arith)

put_test : (put before acme k (codes "value")).1 ≡ ok tt
unfolding put lookup new_used cost
put_test = refl

get-put_example :
    get (put before acme k (codes "value")).0 acme k
    ≡ (if pair_beq (acme, k) (acme, k) then ok (some (codes "value")) else get before acme k)
get-put_example = get-put before acme k (codes "value") acme k put_test

tenants_differ : acme ≢ other_tenant
tenants_differ e = ground arith
