-- ===== src/Pg/Meter/Batches.antt =====
-- The rounds of the writer task of crates/core/src/pg/meter.rs: what is in a batch, and what becomes
-- of it.
use warpline.Base.{
  ℕ, zero, suc, ◌<◌, ◌≡◌, refl, ap, ◌≢◌, ◌⊎◌, inl, inr, Bool, true, false, List, [], ◌∷◌, ◌++◌, map,
  arith, take, drop, bytes_eq, pair_eq,
}
use warpline.Runtime.Invoke.{Metered}
use warpline.Pg.Schema.{MeterRow}
use warpline.Pg.Meter.Mpsc.{Channel}
use warpline.Pg.Meter.{
  meter_row, Attempt, inserted, failed, unheard, insert_rows, write_attempts, write_with_retry,
  PgMeter, fill, account, write_round,
}

-- The server's answer to each of the three attempts reaches the client.
abbrev pub Heard : (ℕ → Attempt) → Type 0
Heard server = (server 0 ≢ unheard) × (server 1 ≢ unheard) × (server 2 ≢ unheard)

Attempt-cases : (a : Attempt) → (a ≡ inserted) ⊎ (a ≡ failed) ⊎ (a ≡ unheard)
Attempt-cases inserted = inl refl
Attempt-cases failed = inr (inl refl)
Attempt-cases unheard = inr (inr refl)

-- Either an attempt writes the rows, once and all of them, or all three fail without effect.
pub data Written (server : ℕ → Attempt) (table : List MeterRow) (rows : List Metered)
    : List MeterRow × Bool → Type 0 where
  wrote :
      (r : List MeterRow × Bool) (k : ℕ)
      → k < 3
      → server k ≡ inserted
      → r ≡ (table ++ map meter_row rows, true)
      → Written server table rows r
  gave_up :
      (r : List MeterRow × Bool)
      → server 0 ≡ failed
      → server 1 ≡ failed
      → server 2 ≡ failed
      → r ≡ (table, false)
      → Written server table rows r

pub write_with_retry-Written :
    (server : ℕ → Attempt) (table : List MeterRow) (rows : List Metered)
    → Heard server
    → Written server table rows (write_with_retry server table rows)
unfolding write_with_retry write_attempts insert_rows
write_with_retry-Written server table rows h = elim (Attempt-cases (server 0)) [
  | inl e ↦ wrote _ 0 (omega arith) e (rw (e, write_with_retry, write_attempts) refl)
  | inr other ↦ elim other [
    | inr lost ↦ absurd (h.0 lost)
    | inl f0 ↦ elim (Attempt-cases (server 1)) [
      | inl e ↦
          wrote _ 1 (omega arith) e
            (rw (f0, write_with_retry, write_attempts) (rw (e, write_attempts) refl))
      | inr other ↦ elim other [
        | inr lost ↦ absurd (h.1 lost)
        | inl f1 ↦ elim (Attempt-cases (server 2)) [
          | inl e ↦ wrote _ 2 (omega arith) e (
              rw (f0, write_with_retry, write_attempts)
                (rw (f1, write_attempts) (rw (e, write_attempts) refl)))
          | inr other ↦ elim other [
            | inr lost ↦ absurd (h.2 lost)
            | inl f2 ↦ gave_up _ f0 f1 f2 (
                rw (f0, write_with_retry, write_attempts)
                  (rw (f1, write_attempts) (rw (f2, write_attempts) refl)))
          ]
        ]
      ]
    ]
  ]
]

module _ (ch : Channel Metered) where
  -- A batch takes the oldest rows, in order, as far as there is room.
  pub fill-take :
      (room : ℕ) (rx : ch.State) (l : List Metered)
      → ch.queued rx ≡ l
      → ((fill ch room rx).1 ≡ take room l) × (ch.queued (fill ch room rx).0 ≡ drop room l)
  unfolding fill
  fill-take zero rx l h = (refl, h)
  fill-take (suc room) rx [] h =
      let (none_left, still) = ch.try_recv-nil rx h in rw (none_left, fill) (refl, still)
  fill-take (suc room) rx (row ∷ l) h =
      let (got, rest) = ch.try_recv-cons rx row l h in
      let (batch, left) = fill-take room (ch.try_recv rx).0 l rest in
      rw (got, fill) (ap (λ b. row ∷ b) batch, left)

  -- A round with an empty queue does nothing but end the loop.
  pub write_round-nil :
      (server : ℕ → Attempt) (meter : PgMeter ch)
      → ch.queued meter.rx ≡ []
      → ((write_round ch server meter).1 ≡ false)
        × (ch.queued (write_round ch server meter).0.rx ≡ [])
        × ((write_round ch server meter).0.table ≡ meter.table)
        × ((write_round ch server meter).0.dropped ≡ meter.dropped)
  unfolding write_round
  write_round-nil server meter h =
      let (none_left, still) = ch.try_recv-nil meter.rx h in
      rw (none_left, write_round) (refl, still, refl, refl)

  account-rx :
      (meter : PgMeter ch) (rx : ch.State) (batch : List Metered) (r : List MeterRow × Bool)
      → (account ch meter rx batch r).rx ≡ rx
  unfolding account
  account-rx meter rx batch (table, true) = refl
  account-rx meter rx batch (table, false) = refl

  -- Any other round takes a batch of at most 200 rows off the front and accounts for it.
  pub write_round-cons :
      (server : ℕ → Attempt) (meter : PgMeter ch) (row : Metered) (l : List Metered)
      → ch.queued meter.rx ≡ row ∷ l
      → ((write_round ch server meter).1 ≡ true)
        × (ch.queued (write_round ch server meter).0.rx ≡ drop 200 (row ∷ l))
        × ((rx : ch.State) × ((write_round ch server meter).0
              ≡ account ch meter rx
                  (take 200 (row ∷ l))
                  (write_with_retry server meter.table (take 200 (row ∷ l)))))
  unfolding write_round
  write_round-cons server meter row l h =
      let (got, rest) = ch.try_recv-cons meter.rx row l h in
      let (batch, left) = fill-take 199 (ch.try_recv meter.rx).0 l rest in
      rw (got, write_round)
        (rw batch (
          refl,
          rw
              (account-rx meter (fill ch 199 (ch.try_recv meter.rx).0).0 (row ∷ take 199 l)
                (write_with_retry server meter.table (row ∷ take 199 l)))
              left,
          ((fill ch 199 (ch.try_recv meter.rx).0).0, refl),
        ))
