-- ===== src/Threads/Progress.antt =====
-- The states of the threads where `Shutdown` can go on.
use rio_network.Base.{ℕ, ◌≡◌, ◌⊎◌, Bool}
use rio_network.Threads.{joining_closer, returned, blocked, Threads, Step}
use rio_network.Threads.Missed.{Missed}

module _ (polls : Bool) (n m : ℕ) (t : Threads) where
  -- `Shutdown` has returned, waits for a closing thread that sleeps, or some thread can go on.
  Outcome : Type 0
  Outcome =
      (t.caller ≡ returned)
      ⊎ ((t.caller ≡ joining_closer) × (t.closer ≡ blocked) × Missed polls n m t)
      ⊎ ((u : Threads) × Step polls n m t u)
