-- ===== src/SpinLock/Tests.antt =====
-- Two threads at a SpinLock of Mutex.h.
use rio_network.Base.{◌+◌, ◌≤◌, false, arith, count_flag}
use rio_network.SpinLock.{
  SpinLock, LockReach, free_lock, later, turn, enter, acquire, retry, foreign, holders,
  holders-flag,
}

-- Thread 0 is in its section, thread 1 tries to get in, and then thread 2 clears the flag.
abbrev contended : (s : SpinLock) × LockReach 3 1 s
contended = (
  _,
  later
      (later
        (later (later (later free_lock (turn 0 (omega arith) enter)) (turn 1 (omega arith) enter))
          (turn 0 (omega arith) acquire))
        (turn 1 (omega arith) retry))
      (turn 2 (omega arith) foreign),
)

holders-flag_example :
    (count_flag false ≤ holders 3 contended.0) × (holders 3 contended.0 ≤ count_flag false + 1)
holders-flag_example = holders-flag contended.1
