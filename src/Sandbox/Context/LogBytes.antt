-- ===== src/Sandbox/Context/LogBytes.antt =====
-- `log::Host::emit` of crates/core/src/sandbox.rs at the cap of the bytes of all lines.
use warpline.Base.{
  ℕ, suc, ◌+◌, ◌*◌, ◌≤◌, ◌<◌, ◌≡◌, Bool, List, [], ◌∷◌, arith, length, sum_by, Bytes, bytes_eq,
  pair_eq, zero,
}
use warpline.Kv.{KvStore}
use warpline.Sandbox.Text.{truncate_utf8}
use warpline.Sandbox.Context.{HostCtx, HostCall, log, host_call, host_calls, emit, new_ctx}
use warpline.Sandbox.Context.Quotas.{line_size}

module _ (s : KvStore) (msg : Bytes) where
  abbrev lines : ℕ → List (HostCall s)
  lines zero = []
  lines (suc n) = log [] msg ∷ lines n

  emit_line :
      (c : HostCtx s)
      → length msg ≡ 4095
      → c.log_line_count < 100
      → c.log_bytes < 65536
      → let after = emit s c [] msg in
        (after.log_line_count ≡ c.log_line_count + 1)
        × (after.log_bytes ≡ c.log_bytes + 4095)
        × (sum_by line_size after.logged ≡ sum_by line_size c.logged + 4095)
  unfolding emit truncate_utf8
  emit_line c len count bytes = ground arith

  lines-logged :
      (n : ℕ) (c : HostCtx s)
      → length msg ≡ 4095
      → c.log_line_count + n ≤ 100
      → c.log_bytes + n * 4095 ≤ 69615
      → sum_by line_size (host_calls s c (lines n)).logged ≡ sum_by line_size c.logged + n * 4095
  unfolding host_calls host_call
  lines-logged zero c len count bytes = omega arith
  lines-logged (suc n) c len count bytes =
      let (count', bytes', logged') = emit_line c len (omega arith) (omega arith) in
      omega (arith, lines-logged n (emit s c [] msg) len (omega arith) (omega arith))

-- Seventeen lines of 4095 bytes are all logged in one invocation: 69615 bytes, past the 64 KiB that
-- are documented for its lines.
past_documented :
    (s : KvStore) (msg tenant func : Bytes) (kv : s.State) (hosts : List Bytes) (egress : Bool)
    (mem_cap : ℕ)
    → length msg ≡ 4095
    → sum_by line_size
        (host_calls s (new_ctx s tenant func kv hosts egress mem_cap) (lines s msg 17)).logged
      ≡ 69615
unfolding new_ctx
past_documented s msg tenant func kv hosts egress mem_cap len =
    lines-logged s msg 17 (new_ctx s tenant func kv hosts egress mem_cap) len (omega arith)
      (omega arith)
