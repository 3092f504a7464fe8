-- ===== src/Examples/Meter.antt =====
-- A channel over a list, and the theorems on the meter applied to it.
use warpline.Base.{
  ℕ, zero, suc, ◌+◌, ◌≡◌, refl, Bool, true, false, ◌||◌, List, [], ◌∷◌, ◌++◌, Option, none, some,
  arith, leb, if◌then◌else◌, length, bytes_eq, pair_eq,
}
use warpline.Examples.Registry.{acme, hello}
use warpline.Runtime.Invoke.{Metered}
use warpline.Pg.Meter.Mpsc.{Channel}
use warpline.Pg.Meter.{
  Attempt, inserted, failed, PgMeter, write_round, record_row, shut_down, account, write_with_retry,
  write_attempts, fill,
}
use warpline.Pg.Meter.Batches.{Heard}
use warpline.Pg.Meter.Accounts.{
  Accounts, write_round-Accounts, MeterEvent, reported, round, events_from, shut_down-flushes,
}

pub record ListChannel : Type 0 where
  pub messages : List Metered
  pub is_closed : Bool

abbrev push : Metered → ListChannel → Option ListChannel
push a s =
    if s.is_closed || leb 2 (length s.messages)
    then none
    else some (record s { messages = s.messages ++ a ∷ [] })

abbrev pop_from : List Metered → ListChannel → ListChannel × Option Metered
pop_from [] s = (s, none)
pop_from (a ∷ l) s = (record s { messages = l }, some a)

push-messages :
    (a : Metered) (s t : ListChannel) → push a s ≡ some t → t.messages ≡ s.messages ++ a ∷ []
push-messages a s t h = ground arith

pop_from-nil :
    (s : ListChannel)
    → s.messages ≡ []
    → ((pop_from s.messages s).1 ≡ none) × ((pop_from s.messages s).0.messages ≡ [])
pop_from-nil s h = rw h (refl, refl)

pop_from-cons :
    (s : ListChannel) (a : Metered) (l : List Metered)
    → s.messages ≡ a ∷ l
    → ((pop_from s.messages s).1 ≡ some a) × ((pop_from s.messages s).0.messages ≡ l)
pop_from-cons s a l h = rw h (refl, refl)

push-closed : (a : Metered) (s : ListChannel) → push a (record s { is_closed = true }) ≡ none
push-closed a s = refl

-- A channel for two rows.
mpsc : Channel Metered
mpsc = record {
  State = ListChannel;
  queued = λ s. s.messages;
  try_send = push;
  try_recv = λ s. pop_from s.messages s;
  close = λ s. record s { is_closed = true };
  queued-try_send = push-messages;
  try_recv-nil = pop_from-nil;
  try_recv-cons = pop_from-cons;
  queued-close = λ s. refl;
  try_send-close = push-closed;
}

abbrev used : Metered
used = record {
  tenant = acme;
  func = hello;
  usage = record { cpu_us = 1000; wall_us = 1500; mem_peak_bytes = 65536 };
  succeeded = true;
}

abbrev meter : PgMeter mpsc
unfolding mpsc
meter = record { rx = record { messages = []; is_closed = false }; dropped = 0; table = [] }

abbrev works_at_last : ℕ → Attempt
works_at_last zero = failed
works_at_last (suc n) = inserted

abbrev heard : Heard works_at_last
heard = ((λ e. cc), (λ e. cc), (λ e. cc))

-- Three rows for two places; a round in between.
abbrev events : List (MeterEvent mpsc)
events = reported used ∷ reported used ∷ reported used ∷ round works_at_last ∷ reported used ∷ []

shut_down-flushes_example :
    (mpsc.queued (shut_down mpsc 1 (λ k. works_at_last) (events_from mpsc meter events)).rx ≡ [])
    × (4
        ≡ length (shut_down mpsc 1 (λ k. works_at_last) (events_from mpsc meter events)).table
          + (shut_down mpsc 1 (λ k. works_at_last) (events_from mpsc meter events)).dropped)
unfolding mpsc events_from record_row write_round account write_with_retry write_attempts fill
shut_down-flushes_example =
    shut_down-flushes mpsc events 1 (λ k. works_at_last) meter refl refl refl (omega arith)
      (heard, tt) (λ k. heard) (omega arith)

abbrev waiting : PgMeter mpsc
unfolding mpsc
waiting = record {
  rx = record { messages = used ∷ used ∷ []; is_closed = true };
  dropped = 7;
  table = [];
}

write_round-Accounts_example :
    (mpsc.queued (write_round mpsc works_at_last waiting).0.rx ≡ [])
    × Accounts works_at_last [] 7
        (used ∷ used ∷ [])
        (write_round mpsc works_at_last waiting).0.table
        (write_round mpsc works_at_last waiting).0.dropped
unfolding mpsc
write_round-Accounts_example =
    write_round-Accounts mpsc works_at_last waiting used (used ∷ []) heard refl
