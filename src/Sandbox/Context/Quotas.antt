-- ===== src/Sandbox/Context/Quotas.antt =====
-- What the caps of crates/core/src/sandbox.rs promise of one invocation, over any key/value store:
-- a store that keeps a record of the puts that reach it stands for it.
use warpline.Base.{
  ℕ, ◌+◌, ◌≤◌, ◌<◌, ◌≡◌, inl, inr, Bool, List, [], ◌∷◌, none, arith, if◌then◌else◌, Option-cases,
  length, All, sum_by, Bytes, bytes_eq, pair_eq,
}
use warpline.Kv.{KvStore}
use warpline.Sandbox.Text.{truncate_utf8_prefix}
use warpline.Sandbox.Context.{
  HostCtx, HostCall, get, put, log, host_call, host_calls, kv_get, kv_put, emit, new_ctx, LogRecord,
  guest_log, suppressed,
}

pub record Put : Type 0 where
  pub tenant : Bytes
  pub key : Bytes
  pub value : Bytes

-- The same store, with every put that is tried on it, newest first.
abbrev pub recorded : KvStore → KvStore
recorded s = record {
  State = s.State × List Put;
  get = λ st tenant key. s.get st.0 tenant key;
  put = λ st tenant key value.
      let r = s.put st.0 tenant key value in
      ((r.0, record { tenant = tenant; key = key; value = value } ∷ st.1), r.1);
}

abbrev pub put_size : Put → ℕ
put_size p = length p.key + length p.value

-- What every put that reaches the store has.
abbrev pub PutCapped : Bytes → Put → Type 0
PutCapped tenant p = (p.tenant ≡ tenant) × (length p.key ≤ 512) × (length p.value ≤ 1048576)

-- The puts of an invocation: 1000 of them and 8 MiB of keys and values at most, all of the
-- invocation's own tenant, with keys of 512 bytes and values of 1 MiB at most.
pub record PutsCapped (tenant : Bytes) (puts : List Put) : Type 0 where
  pub number : length puts ≤ 1000
  pub bytes : sum_by put_size puts ≤ 8388608
  pub each : All (PutCapped tenant) puts

abbrev pub line_size : LogRecord → ℕ
line_size (guest_log level tenant func msg) = length msg
line_size (suppressed tenant func) = 0

abbrev is_line : LogRecord → ℕ
is_line (guest_log level tenant func msg) = 1
is_line (suppressed tenant func) = 0

abbrev is_notice : LogRecord → ℕ
is_notice (guest_log level tenant func msg) = 0
is_notice (suppressed tenant func) = 1

-- Each line has 4 KiB at most, and every line was logged when those before it had fewer than 64 KiB:
-- the number of bytes is tested before the line is added. Newest first.
abbrev pub LinesCapped : List LogRecord → Type 0
LinesCapped [] = Unit
LinesCapped (suppressed tenant func ∷ older) = LinesCapped older
LinesCapped (guest_log level tenant func msg ∷ older) =
    (length msg ≤ 4096) × (sum_by line_size older < 65536) × LinesCapped older

-- 100 lines at most, each within the cap of a line and after fewer than 64 KiB, so that all lines
-- together may pass 64 KiB by less than one line, and one notice at most that output was suppressed.
pub record LogCapped (logged : List LogRecord) : Type 0 where
  pub lines : sum_by is_line logged ≤ 100
  pub each : LinesCapped logged
  pub bytes : sum_by line_size logged < 65536 + 4096
  pub notices : sum_by is_notice logged ≤ 1

module _ (s : KvStore) (tenant : Bytes) where
  abbrev Ctx : Type 0
  Ctx = HostCtx (recorded s)

  -- While no call has trapped the counters count what reached the store and the log.
  record Live (c : Ctx) : Type 0 where
    own : c.tenant_id ≡ tenant
    put_count : c.kv_put_count ≡ length c.kv.1
    put_bytes : c.kv_put_bytes ≡ sum_by put_size c.kv.1
    puts : PutsCapped tenant c.kv.1
    line_count : c.log_line_count ≡ sum_by is_line c.logged
    line_bytes : c.log_bytes ≡ sum_by line_size c.logged
    notified : sum_by is_notice c.logged ≡ (if c.log_suppressed_notified then 1 else 0)
    logs : LogCapped c.logged

  record Capped (c : Ctx) : Type 0 where
    puts : PutsCapped tenant c.kv.1
    logs : LogCapped c.logged

  Live-Capped : (c : Ctx) → Live c → Capped c
  Live-Capped c l = record { puts = l.puts; logs = l.logs }

  -- The values of the context that `kv_put` reads.
  emit-Live : (c : Ctx) (level msg : Bytes) → Live c → Live (emit (recorded s) c level msg)
  unfolding emit
  emit-Live c level msg l =
      let cut = truncate_utf8_prefix msg 4096 in let logs = l.logs in ground (arith, cut.0)

  get-Live : (c : Ctx) (key : Bytes) → Live c → Live (host_call (recorded s) c (get key)).0
  unfolding host_call kv_get
  get-Live c key l = ground arith

  put-Live :
      (c : Ctx) (key value : Bytes)
      → Live c
      → (host_call (recorded s) c (put key value)).1 ≡ none
      → Live (host_call (recorded s) c (put key value)).0
  unfolding host_call kv_put
  put-Live c key value l h = ground arith

  put-Capped :
      (c : Ctx) (key value : Bytes) → Live c → Capped (host_call (recorded s) c (put key value)).0
  unfolding host_call kv_put
  put-Capped c key value l = ground arith

  new_ctx-Live :
      (func : Bytes) (kv : s.State) (hosts : List Bytes) (private_egress : Bool) (mem_cap : ℕ)
      → Live (new_ctx (recorded s) tenant func (kv, []) hosts private_egress mem_cap)
  unfolding new_ctx
  new_ctx-Live func kv hosts private_egress mem_cap = ground arith

  host_call-Capped :
      (c : Ctx) (h : HostCall (recorded s)) → Live c → Capped (host_call (recorded s) c h).0
  host_call-Capped c (get key) l = Live-Capped _ (get-Live c key l)
  host_call-Capped c (put key value) l = put-Capped c key value l
  host_call-Capped c (log level msg) l = unfold host_call in Live-Capped _ (emit-Live c level msg l)

  host_call-Live :
      (c : Ctx) (h : HostCall (recorded s))
      → Live c
      → (host_call (recorded s) c h).1 ≡ none
      → Live (host_call (recorded s) c h).0
  host_call-Live c (get key) l e = get-Live c key l
  host_call-Live c (put key value) l e = put-Live c key value l e
  host_call-Live c (log level msg) l e = unfold host_call in emit-Live c level msg l

  host_calls-Capped :
      (c : Ctx) (hs : List (HostCall (recorded s))) → Live c → Capped (host_calls (recorded s) c hs)
  unfolding host_calls
  host_calls-Capped c [] l = Live-Capped c l
  host_calls-Capped c (h ∷ hs) l = elim (Option-cases (host_call (recorded s) c h).1) [
    | inl goes_on ↦
        rw (goes_on, host_calls)
          (host_calls-Capped (host_call (recorded s) c h).0 hs (host_call-Live c h l goes_on))
    | inr (t, traps) ↦ rw (traps, host_calls) (host_call-Capped c h l)
  ]

-- Whatever a guest calls in one invocation, over any key/value store: the puts that reach the store
-- are at most 1000 with at most 8 MiB of keys and values, all of the invocation's tenant, none with
-- a key above 512 bytes or a value above 1 MiB; and it logs at most 100 lines of at most 4 KiB, each
-- only while the lines before it have fewer than 64 KiB, so fewer than 68 KiB in all, and at most
-- one notice that output was suppressed.
pub host_calls-capped :
    (s : KvStore) (tenant func : Bytes) (kv : s.State) (hosts : List Bytes) (private_egress : Bool)
    (mem_cap : ℕ) (calls : List (HostCall (recorded s)))
    → let start = new_ctx (recorded s) tenant func (kv, []) hosts private_egress mem_cap in
      let end = host_calls (recorded s) start calls in
      PutsCapped tenant end.kv.1 × LogCapped end.logged
host_calls-capped s tenant func kv hosts private_egress mem_cap calls =
    let c =
      host_calls-Capped s tenant _ calls
        (new_ctx-Live s tenant func kv hosts private_egress mem_cap) in
    (c.puts, c.logs)
