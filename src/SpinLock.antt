-- ===== src/SpinLock.antt =====
-- NetLib/NetLib/Mutex.h, class SpinLock, with the threads that use it: `lock` and `unlock` around a
-- section, or `try_lock`. `test_and_set` and `clear` of the atomic flag are one step each; the sleep
-- between two attempts is left out. `unlock` and the method `clear` do the same and ask nothing of
-- their caller: the pending flags of Session.cpp are taken by one thread and released by another.
mod Tests
use rio_network.Base.{
  ℕ, ◌+◌, ◌-◌, ◌<◌, ◌≡◌, ◌≤◌, refl, Bool, true, false, arith, update, total, total-zero,
  total-update, le-total, count_flag,
}

-- Where a thread stands: outside, in the loop of `lock`, or in its section.
pub data LockPc : Type 0 where
  outside trying inside : LockPc

pub record SpinLock : Type 0 where
  pub locked : Bool
  pub threads : ℕ → LockPc

-- One step of one thread, with the flag before and behind it, and how many releases it is by a thread
-- that is not in its section. `unlock` and `clear` are those of a thread that leaves its section,
-- `foreign` is either of them called by another.
pub data LockTurn : Bool → LockPc → ℕ → Bool → LockPc → Type 0 where
  enter : {b : Bool} → LockTurn b outside 0 b trying
  acquire : LockTurn false trying 0 true inside
  retry : LockTurn true trying 0 true trying
  try_lock : LockTurn false outside 0 true inside
  try_busy : LockTurn true outside 0 true outside
  unlock : {b : Bool} → LockTurn b inside 0 false outside
  clear : {b : Bool} → LockTurn b inside 0 false outside
  foreign : {b : Bool} → LockTurn b outside 1 false outside

pub data LockStep (n : ℕ) (s : SpinLock) : ℕ → SpinLock → Type 0 where
  turn :
      (i : ℕ) {b : Bool} {pc : LockPc} {f : ℕ}
      → i < n
      → LockTurn s.locked (s.threads i) f b pc
      → LockStep n s f (record { locked = b; threads = update s.threads i pc })

-- `ATOMIC_FLAG_INIT`
abbrev pub unlocked : SpinLock
unlocked = record { locked = false; threads = λ i. outside }

-- What n threads can reach from an unlocked flag, with so many foreign releases.
pub data LockReach (n : ℕ) : ℕ → SpinLock → Type 0 where
  free_lock : LockReach n 0 unlocked
  later : {c f : ℕ} {s t : SpinLock} → LockReach n c s → LockStep n s f t → LockReach n (c + f) t

abbrev pub holds : LockPc → ℕ
holds inside = 1
holds _ = 0

pub holders : ℕ → SpinLock → ℕ
holders n s = total n (λ i. holds (s.threads i))

-- One thread and all the others, before and behind a turn.
LockTurn-holds :
    {b b' : Bool} {pc pc' : LockPc} {f : ℕ} (rest c : ℕ)
    → LockTurn b pc f b' pc'
    → count_flag b ≤ rest + holds pc
    → rest + holds pc ≤ count_flag b + c
    → (count_flag b' ≤ rest + holds pc') × (rest + holds pc' ≤ count_flag b' + (c + f))
LockTurn-holds rest c enter low high = omega (arith, low, high)
LockTurn-holds rest c acquire low high = omega (arith, low, high)
LockTurn-holds rest c retry low high = omega (arith, low, high)
LockTurn-holds rest c try_lock low high = omega (arith, low, high)
LockTurn-holds rest c try_busy low high = omega (arith, low, high)
LockTurn-holds rest c (unlock {b = true}) low high = omega (arith, low, high)
LockTurn-holds rest c (unlock {b = false}) low high = omega (arith, low, high)
LockTurn-holds rest c (clear {b = true}) low high = omega (arith, low, high)
LockTurn-holds rest c (clear {b = false}) low high = omega (arith, low, high)
LockTurn-holds rest c (foreign {b = true}) low high = omega (arith, low, high)
LockTurn-holds rest c (foreign {b = false}) low high = omega (arith, low, high)

-- However the threads interleave, the flag is set only while some thread holds the lock, and at most
-- one thread more holds it than the flag says for each release by a thread that did not hold it.
-- While only the holder calls `unlock` and `clear`, the count of these is 0: exactly one thread is
-- in its section when the flag is set, and none when it is not.
pub holders-flag :
    {n c : ℕ} {s : SpinLock}
    → LockReach n c s
    → (count_flag s.locked ≤ holders n s) × (holders n s ≤ count_flag s.locked + c)
unfolding holders
holders-flag {n} free_lock = omega (arith, total-zero n (λ i. 0) (λ i b. refl))
holders-flag {n} (later {c} {s} r (turn i {b} {pc} bound t)) =
    let (low, high) = holders-flag r in
    let held = le-total n (λ j. holds (s.threads j)) i bound in
    let rest = total n (λ j. holds (s.threads j)) - holds (s.threads i) in
    let (low', high') =
      LockTurn-holds rest c t (omega (arith, low, held)) (omega (arith, high, held)) in
    let moved = total-update holds n s.threads i pc bound in
    (omega (arith, low', moved, held), omega (arith, high', moved, held))
