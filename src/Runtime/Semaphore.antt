-- ===== src/Runtime/Semaphore.antt =====
-- `Semaphore` of the tokio crate, as `invoke` of crates/core/src/runtime.rs uses it, with what its
-- documentation says.
use warpline.Base.{ℕ, ◌+◌, ◌≤◌, ◌<◌, ◌≡◌, Option, none, some, bytes_eq, pair_eq}

pub record Semaphore : Type 1 where
  pub State : Type 0
  pub available_permits : State → ℕ
  -- `try_acquire_many_owned`, and the drop of the permit that it gives.
  pub try_acquire_many : ℕ → State → Option State
  pub add_permits : ℕ → State → State
  -- "If the semaphore does not have enough permits, this returns an error."
  pub acquire-short : (n : ℕ) (s : State) → available_permits s < n → try_acquire_many n s ≡ none
  pub acquire-enough :
      (n : ℕ) (s : State)
      → n ≤ available_permits s
      → (t : State) × (try_acquire_many n s ≡ some t)
        × (available_permits t + n ≡ available_permits s)
  pub available-add :
      (n : ℕ) (s : State) → available_permits (add_permits n s) ≡ available_permits s + n
