-- ===== src/Pg/Meter.antt =====
-- `PgMeter` of crates/core/src/pg/meter.rs: the queue that invocations report to, and the task that
-- writes it to `warpline.meter` in batches. One round of the task is one step; what the server does
-- with each attempt is an argument.
pub mod Mpsc
pub mod Batches
pub mod Accounts
use warpline.Base.{
  ℕ, zero, suc, ◌+◌, ◌-◌, ◌*◌, ◌/◌, ◌%◌, ◌^◌, ◌≤◌, ◌<◌, min, max, ◌≡◌, refl, sym, ap, ◌∙◌, ◌≢◌, ◌↔◌,
  ◌⊎◌, inl, inr, Bool, true, false, not, ◌&&◌, ◌||◌, List, [], ◌∷◌, ◌++◌, map, Option, none, some,
  arith, ltb, leb, ◌==◌, if◌then◌else◌, ltb→lt, lt→ltb, leb→le, le→leb, ==_iff, Bool-cases,
  Option-cases, Bool-eq_of_iff, length, take, drop, replicate, length-append, length-take,
  take-append-drop, all, any, All, keep, sum_by, length-keep-le, word_mod, word_max, i64_max,
  wrapping_add, wrapping_sub, wrapping_mul, saturating_sub, saturating_add, ℤ, pos, negsuc,
  in_range, i64_or_max, Result, ok, err, ◌>>=◌, ◌>>◌, map_err, ok_or, ensure, is_ok, Result-cases,
  Eq, Bytes, bytes_beq, bytes_beq_iff, bytes_eq, pair_beq, pair_beq_iff, pair_eq, lookup, insert,
  remove, lookup-insert, lookup-remove, lookup-insert_self, weigh, weight_at, weigh-insert,
  weight_at-le,
}
use warpline.Runtime.Errors.{Usage}
use warpline.Runtime.Invoke.{Metered}
use warpline.Pg.Schema.{MeterRow}
use warpline.Pg.Meter.Mpsc.{Channel}

abbrev pub batch_max : ℕ
batch_max = 200

abbrev pub attempts : ℕ
attempts = 3

-- `i64_of`, and the row that `insert` binds.
abbrev pub i64_of : ℕ → ℤ
i64_of v = i64_or_max v

unfoldable pub meter_row : Metered → MeterRow
meter_row r = record {
  tenant = r.tenant;
  func = r.func;
  cpu_us = i64_of r.usage.cpu_us;
  wall_us = i64_of r.usage.wall_us;
  mem_peak_bytes = i64_of r.usage.mem_peak_bytes;
  row_ok = r.succeeded;
}

-- What becomes of one INSERT under its timeout: it succeeds, it fails without effect, or the client
-- hears of no success although the server wrote the rows.
pub data Attempt : Type 0 where
  inserted failed unheard : Attempt

-- The table after the INSERT of a batch.
unfoldable pub insert_rows : List MeterRow → List Metered → List MeterRow
insert_rows table rows = table ++ map meter_row rows

-- The attempts that are left, by what becomes of each; the waits between them change nothing.
unfoldable pub write_attempts :
    ℕ → (ℕ → Attempt) → List MeterRow → List Metered → List MeterRow × Bool
write_attempts zero server table rows = (table, false)
write_attempts (suc n) server table rows = elim (server (attempts - suc n)) [
  | inserted ↦ (insert_rows table rows, true)
  | failed ↦ write_attempts n server table rows
  | unheard ↦ write_attempts n server (insert_rows table rows) rows
]

unfoldable pub write_with_retry :
    (ℕ → Attempt) → List MeterRow → List Metered → List MeterRow × Bool
write_with_retry server table rows = write_attempts attempts server table rows

module _ (ch : Channel Metered) where
  pub record PgMeter : Type 0 where
    pub rx : ch.State
    pub dropped : ℕ
    pub table : List MeterRow

  -- `MeterSink::record`.
  unfoldable pub record_row : PgMeter → Metered → PgMeter
  record_row meter row = elim (ch.try_send row meter.rx) [
    | some rx ↦ record meter { rx = rx }
    | none ↦ record meter { dropped = wrapping_add meter.dropped 1 }
  ]

  -- `while batch.len() < BATCH_MAX { match rx.try_recv() { … } }`, by the room that is left.
  unfoldable pub fill : ℕ → ch.State → ch.State × List Metered
  fill zero rx = (rx, [])
  fill (suc room) rx =
      let r = ch.try_recv rx in
      elim r.1 [ none ↦ (r.0, []) | some row ↦ let rest = fill room r.0 in (rest.0, row ∷ rest.1) ]

  -- `dropped.fetch_add(batch.len())` where no attempt succeeded.
  unfoldable pub account : PgMeter → ch.State → List Metered → List MeterRow × Bool → PgMeter
  account meter rx batch (table, true) = record meter { rx = rx; table = table }
  account meter rx batch (table, false) = record {
    rx = rx;
    dropped = wrapping_add meter.dropped (length batch);
    table = table;
  }

  -- One round: the batch that starts with `first`, and whether there was one.
  unfoldable pub write_round : (ℕ → Attempt) → PgMeter → PgMeter × Bool
  write_round server meter =
      let first = ch.try_recv meter.rx in
      elim first.1 [
        | none ↦ (record meter { rx = first.0 }, false)
        | some row ↦
            let filled = fill (batch_max - 1) first.0 in
            let batch = row ∷ filled.1 in
            (account meter filled.0 batch (write_with_retry server meter.table batch), true)
      ]

  -- The loop of `run` once it is stopping: rounds until the queue is empty.
  unfoldable pub drain : ℕ → (ℕ → ℕ → Attempt) → PgMeter → PgMeter
  drain zero server meter = meter
  drain (suc fuel) server meter =
      let r = write_round (server fuel) meter in
      elim r.1 [ true ↦ drain fuel server r.0 | false ↦ r.0 ]

  -- `rx.close()`, at the owner's `shutdown`, and the rounds after it.
  unfoldable pub shut_down : ℕ → (ℕ → ℕ → Attempt) → PgMeter → PgMeter
  shut_down fuel server meter = drain fuel server (record meter { rx = ch.close meter.rx })
