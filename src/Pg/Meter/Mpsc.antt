-- ===== src/Pg/Meter/Mpsc.antt =====
-- The bounded channel of tokio (`mpsc`) under crates/core/src/pg/meter.rs: what its documentation
-- says of the operations used, over the messages that wait, oldest first.
use warpline.Base.{◌≡◌, List, [], ◌∷◌, ◌++◌, Option, none, some, bytes_eq, pair_eq}

pub record Channel (A : Type 0) : Type 1 where
  pub State : Type 0
  pub queued : State → List A
  -- `Sender::try_send`: `none` where the channel is full or closed.
  pub try_send : A → State → Option State
  -- `Receiver::try_recv`, and `Receiver::close`.
  pub try_recv : State → State × Option A
  pub close : State → State
  pub queued-try_send :
      (a : A) (s t : State) → try_send a s ≡ some t → queued t ≡ queued s ++ a ∷ []
  pub try_recv-nil :
      (s : State) → queued s ≡ [] → ((try_recv s).1 ≡ none) × (queued (try_recv s).0 ≡ [])
  pub try_recv-cons :
      (s : State) (a : A) (l : List A)
      → queued s ≡ a ∷ l
      → ((try_recv s).1 ≡ some a) × (queued (try_recv s).0 ≡ l)
  -- "Prevents any further messages from being sent on the channel while still enabling the receiver
  -- to drain messages that are buffered."
  pub queued-close : (s : State) → queued (close s) ≡ queued s
  pub try_send-close : (a : A) (s : State) → try_send a (close s) ≡ none
