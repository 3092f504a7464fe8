-- ===== src/Pg/Meter/Accounts.antt =====
-- The accounts of crates/core/src/pg/meter.rs: where the rows are that invocations reported.
use warpline.Base.{
  ℕ, zero, suc, ◌+◌, ◌-◌, ◌*◌, ◌≤◌, ◌<◌, ◌≡◌, refl, ◌⊎◌, inl, inr, Bool, List, [], ◌∷◌, ◌++◌, map,
  arith, Bool-cases, Option-cases, length, take, drop, length-append, length-take, word_mod,
  wrapping_add, bytes_eq, pair_eq,
}
use mathlib.Core.Path.{subst}
use warpline.Runtime.Invoke.{Metered}
use warpline.Pg.Schema.{MeterRow}
use warpline.Pg.Meter.Mpsc.{Channel}
use warpline.Pg.Meter.{
  meter_row, Attempt, inserted, failed, write_with_retry, PgMeter, record_row, account, write_round,
  drain, shut_down,
}
use warpline.Pg.Meter.Batches.{
  Heard, Written, wrote, gave_up, write_with_retry-Written, write_round-nil, write_round-cons,
}

length-drop : {A : Type 0} (n : ℕ) (l : List A) → length (drop n l) ≡ length l - n
length-drop zero l = omega arith
length-drop (suc n) [] = omega arith
length-drop (suc n) (a ∷ l) = omega (arith, length-drop n l)

length-map : {A B : Type 0} (f : A → B) (l : List A) → length (map f l) ≡ length l
length-map f [] = refl
length-map f (a ∷ l) = omega (arith, length-map f l)

length-written :
    (table : List MeterRow) (rows : List Metered)
    → length (table ++ map meter_row rows) ≡ length table + length rows
length-written table rows =
    omega (arith, length-append table (map meter_row rows), length-map meter_row rows)

-- What a batch becomes: rows of the table, or that many rows more that are counted as lost.
abbrev pub Accounts : (ℕ → Attempt) → List MeterRow → ℕ → List Metered → List MeterRow → ℕ → Type 0
Accounts server table dropped batch table' dropped' =
    ((k : ℕ) × (k < 3)
      × (server k ≡ inserted)
      × (table' ≡ table ++ map meter_row batch)
      × (dropped' ≡ dropped))
    ⊎ ((server 0 ≡ failed)
        × (server 1 ≡ failed)
        × (server 2 ≡ failed)
        × (table' ≡ table)
        × (dropped' ≡ wrapping_add dropped (length batch)))

module _ (ch : Channel Metered) where
  account-Accounts :
      (server : ℕ → Attempt) (meter : PgMeter ch) (rx : ch.State) (batch : List Metered)
      (r : List MeterRow × Bool)
      → Written server meter.table batch r
      → Accounts server meter.table meter.dropped batch
          (account ch meter rx batch r).table
          (account ch meter rx batch r).dropped
  unfolding account
  account-Accounts server meter rx batch r (wrote _ k lt e made) =
      rw made (inl (k, lt, e, refl, refl))
  account-Accounts server meter rx batch r (gave_up _ f0 f1 f2 made) =
      rw made (inr (f0, f1, f2, refl, refl))

  -- A round of the writer with rows in the queue takes the oldest 200, or all if there are fewer.
  -- Within three attempts they are appended to the table, in order and once, or if all three fail
  -- the table stays and they are counted as dropped. Each attempt's answer reaches the writer.
  pub write_round-Accounts :
      (server : ℕ → Attempt) (meter : PgMeter ch) (row : Metered) (l : List Metered)
      → Heard server
      → ch.queued meter.rx ≡ row ∷ l
      → let after = (write_round ch server meter).0 in
        (ch.queued after.rx ≡ drop 200 (row ∷ l))
        × Accounts server meter.table meter.dropped (take 200 (row ∷ l)) after.table after.dropped
  write_round-Accounts server meter row l h q =
      let (more, left, (rx, made)) = write_round-cons ch server meter row l q in
      let batch = take 200 (row ∷ l) in
      (
        left,
        rw made (
            account-Accounts server meter rx batch (write_with_retry server meter.table batch)
              (write_with_retry-Written server meter.table batch h)),
      )

  -- Of `n` rows reported, as many wait, are in the table or are counted as dropped.
  abbrev pub Accounted : ℕ → PgMeter ch → Type 0
  Accounted n meter = n ≡ length (ch.queued meter.rx) + length meter.table + meter.dropped

  record_row-Accounted :
      (n : ℕ) (meter : PgMeter ch) (row : Metered)
      → suc n < word_mod
      → Accounted n meter
      → Accounted (suc n) (record_row ch meter row)
  unfolding record_row
  record_row-Accounted n meter row lt a = elim (Option-cases (ch.try_send row meter.rx)) [
    | inl full ↦ rw (full, record_row) (omega arith)
    | inr (rx, sent) ↦
        rw (sent, record_row)
          (rw (ch.queued-try_send row meter.rx rx sent)
            (omega (arith, length-append (ch.queued meter.rx) (row ∷ []))))
  ]

  write_round-Accounted :
      (n : ℕ) (server : ℕ → Attempt) (meter : PgMeter ch) (l : List Metered)
      → ch.queued meter.rx ≡ l
      → n < word_mod
      → Heard server
      → Accounted n meter
      → Accounted n (write_round ch server meter).0
  write_round-Accounted n server meter [] q lt h a =
      let (ends, still, table, dropped) = write_round-nil ch server meter q in
      rw (still, table, dropped) (rw q at a)
  write_round-Accounted n server meter (row ∷ l) q lt h a =
      let (left, outcome) = write_round-Accounts server meter row l h q in
      let gone = length-drop 200 (row ∷ l) in
      let size = length-take 200 (row ∷ l) in
      let before : n ≡ length (row ∷ l) + length meter.table + meter.dropped = rw q at a in
      elim outcome [
        | inl (k, small, e, table, dropped) ↦
            rw (left, table, dropped)
              (omega (arith, length-written meter.table (take 200 (row ∷ l))))
        | inr (f0, f1, f2, table, dropped) ↦ rw (left, table, dropped) (omega arith)
      ]

  -- What happens to the meter: a report, a round of the writer, or the closing of the queue.
  pub data MeterEvent : Type 0 where
    reported : Metered → MeterEvent
    round : (ℕ → Attempt) → MeterEvent
    closed : MeterEvent

  unfoldable pub events_from : PgMeter ch → List MeterEvent → PgMeter ch
  events_from meter [] = meter
  events_from meter (reported row ∷ es) = events_from (record_row ch meter row) es
  events_from meter (round server ∷ es) = events_from (write_round ch server meter).0 es
  events_from meter (closed ∷ es) = events_from (record meter { rx = ch.close meter.rx }) es

  abbrev pub reports : List MeterEvent → ℕ
  reports [] = 0
  reports (reported row ∷ es) = suc (reports es)
  reports (round server ∷ es) = reports es
  reports (closed ∷ es) = reports es

  abbrev pub AllHeard : List MeterEvent → Type 0
  AllHeard [] = Unit
  AllHeard (reported row ∷ es) = AllHeard es
  AllHeard (round server ∷ es) = Heard server × AllHeard es
  AllHeard (closed ∷ es) = AllHeard es

  events_from-Accounted :
      (es : List MeterEvent) (n : ℕ) (meter : PgMeter ch)
      → n + reports es < word_mod
      → AllHeard es
      → Accounted n meter
      → Accounted (n + reports es) (events_from meter es)
  unfolding events_from
  events_from-Accounted [] n meter lt h a = omega arith
  events_from-Accounted (reported row ∷ es) n meter lt h a =
      let shift : suc n + reports es ≡ n + suc (reports es) = omega arith in
      subst (λ k. Accounted k (events_from (record_row ch meter row) es)) shift
        (events_from-Accounted es (suc n) (record_row ch meter row) (omega arith) h
          (record_row-Accounted n meter row (omega arith) a))
  events_from-Accounted (round server ∷ es) n meter lt h a =
      events_from-Accounted es n (write_round ch server meter).0 lt h.1
        (write_round-Accounted n server meter (ch.queued meter.rx) refl (omega arith) h.0 a)
  events_from-Accounted (closed ∷ es) n meter lt h a =
      events_from-Accounted es n (record meter { rx = ch.close meter.rx }) lt h
        (rw (ch.queued-close meter.rx) a)

  drain-Accounted :
      (fuel n : ℕ) (server : ℕ → ℕ → Attempt) (meter : PgMeter ch)
      → n < word_mod
      → ((k : ℕ) → Heard (server k))
      → Accounted n meter
      → Accounted n (drain ch fuel server meter)
  unfolding drain
  drain-Accounted zero n server meter lt h a = a
  drain-Accounted (suc fuel) n server meter lt h a =
      let after =
        write_round-Accounted n (server fuel) meter (ch.queued meter.rx) refl lt (h fuel) a in
      elim (Bool-cases (write_round ch (server fuel) meter).1) [
        | inl more ↦
            rw (more, drain)
              (drain-Accounted fuel n server (write_round ch (server fuel) meter).0 lt h after)
        | inr ends ↦ rw (ends, drain) after
      ]

  -- Enough rounds for the queue, 200 rows each, leave it empty.
  drain-nil :
      (fuel : ℕ) (server : ℕ → ℕ → Attempt) (meter : PgMeter ch) (l : List Metered)
      → ch.queued meter.rx ≡ l
      → length l ≤ 200 * fuel
      → ch.queued (drain ch fuel server meter).rx ≡ []
  unfolding drain
  drain-nil zero server meter [] q le = q
  drain-nil zero server meter (row ∷ l) q le = absurd (omega arith)
  drain-nil (suc fuel) server meter [] q le =
      let (ends, still, table, dropped) = write_round-nil ch (server fuel) meter q in
      rw (ends, drain) still
  drain-nil (suc fuel) server meter (row ∷ l) q le =
      let (more, left, (rx, made)) = write_round-cons ch (server fuel) meter row l q in
      rw (more, drain)
        (drain-nil fuel server (write_round ch (server fuel) meter).0 (drop 200 (row ∷ l)) left
          (omega (arith, length-drop 200 (row ∷ l))))

  -- From an empty meter and table, whatever is reported while the writer works, a shutdown that is
  -- given a round for each 200 rows that wait empties the queue; then the rows reported are as many as
  -- the rows of the table and those counted as dropped. Fewer than 2^64 rows are reported and the
  -- server's answer to each attempt reaches the writer.
  pub shut_down-flushes :
      (es : List MeterEvent) (fuel : ℕ) (server : ℕ → ℕ → Attempt) (meter : PgMeter ch)
      → ch.queued meter.rx ≡ []
      → meter.table ≡ []
      → meter.dropped ≡ 0
      → reports es < word_mod
      → AllHeard es
      → ((k : ℕ) → Heard (server k))
      → length (ch.queued (events_from meter es).rx) ≤ 200 * fuel
      → let after = shut_down ch fuel server (events_from meter es) in
        (ch.queued after.rx ≡ []) × (reports es ≡ length after.table + after.dropped)
  unfolding shut_down
  shut_down-flushes es fuel server meter q t z lt heard h le =
      let m = events_from meter es in
      let start : Accounted 0 meter = rw (q, t, z) (omega arith) in
      let shift : 0 + reports es ≡ reports es = omega arith in
      let open_books =
        subst (λ k. Accounted k m) shift
          (events_from-Accounted es 0 meter (omega arith) heard start) in
      let closing : PgMeter ch = record m { rx = ch.close m.rx } in
      let same = ch.queued-close m.rx in
      let books : Accounted (reports es) closing = rw same open_books in
      let settled = drain-Accounted fuel (reports es) server closing lt h books in
      let empty = drain-nil fuel server closing (ch.queued closing.rx) refl (rw same le) in
      let books_closed = rw empty at settled in (empty, omega arith)
