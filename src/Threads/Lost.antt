-- ===== src/Threads/Lost.antt =====
-- `notify_all` of `Shutdown` (Network.cpp, 418): it is called without the lock that the closing thread
-- holds from its test to its wait.
use rio_network.Base.{ℕ, ◌≡◌, Bool, false, arith}
use rio_network.Threads.{
  joining_closer, blocked, Threads, CallerStep, stop, post_io, posted_io, post_process,
  posted_process, join_io, joined_io, join_process, joined_process, notify, join_closer, CloserStep,
  take, released, fall, block, finish, Step, io_worker, process_worker, closing_thread,
  shutting_down, Event, io_arrives, process_arrives, listed, Trace, here, step, event,
}

record IsLost (t : Threads) : Type 0 where
  off : t.is_running ≡ false
  caller : t.caller ≡ joining_closer
  closer : t.closer ≡ blocked

CloserStep-IsLost : {t u : Threads} → IsLost t → CloserStep t u → IsLost u
CloserStep-IsLost s (take e c) = absurd (ground (arith, e, s.closer))
CloserStep-IsLost s (released e) = absurd (ground (arith, e, s.closer))
CloserStep-IsLost s (fall e c r) = absurd (ground (arith, e, s.closer))
CloserStep-IsLost s (block e) = absurd (ground (arith, e, s.closer))
CloserStep-IsLost s (finish e c r) = absurd (ground (arith, e, s.closer))

module _ {polls : Bool} {n m : ℕ} where
  CallerStep-IsLost : {t u : Threads} → IsLost t → CallerStep polls n m t u → IsLost u
  CallerStep-IsLost s (stop e) = absurd (ground (arith, e, s.caller))
  CallerStep-IsLost s (post_io e) = absurd (ground (arith, e, s.caller))
  CallerStep-IsLost s (posted_io e) = absurd (ground (arith, e, s.caller))
  CallerStep-IsLost s (post_process e) = absurd (ground (arith, e, s.caller))
  CallerStep-IsLost s (posted_process e) = absurd (ground (arith, e, s.caller))
  CallerStep-IsLost s (join_io e b d) = absurd (ground (arith, e, s.caller))
  CallerStep-IsLost s (joined_io e) = absurd (ground (arith, e, s.caller))
  CallerStep-IsLost s (join_process e b d) = absurd (ground (arith, e, s.caller))
  CallerStep-IsLost s (joined_process e) = absurd (ground (arith, e, s.caller))
  CallerStep-IsLost s (notify e) = absurd (ground (arith, e, s.caller))
  CallerStep-IsLost s (join_closer e d) = absurd (ground (arith, d, s.closer))

  Step-IsLost : {t u : Threads} → IsLost t → Step polls n m t u → IsLost u
  Step-IsLost s (io_worker w) = record { off = s.off; caller = s.caller; closer = s.closer }
  Step-IsLost s (process_worker w) = record { off = s.off; caller = s.caller; closer = s.closer }
  Step-IsLost s (closing_thread c) = CloserStep-IsLost s c
  Step-IsLost s (shutting_down c) = CallerStep-IsLost s c

Event-IsLost : {t u : Threads} → IsLost t → Event t u → IsLost u
Event-IsLost s (io_arrives c k) = record { off = s.off; caller = s.caller; closer = s.closer }
Event-IsLost s (process_arrives c k) = record { off = s.off; caller = s.caller; closer = s.closer }
Event-IsLost s (listed r f) = absurd (ground (arith, r, s.off))

Trace-IsLost :
    {polls : Bool} {n m : ℕ} {t : Threads} {k : ℕ} {u : Threads}
    → IsLost t
    → Trace polls n m t k u
    → IsLost u
Trace-IsLost s here = s
Trace-IsLost s (step r x) = Step-IsLost (Trace-IsLost s r) x
Trace-IsLost s (event r x) = Event-IsLost (Trace-IsLost s r) x

-- When the closing thread sleeps after the `notify_all` of `Shutdown`, it is never woken and
-- `Shutdown` never returns, whatever the threads do and whatever completions arrive (short of a
-- spurious wakeup, which the C++ standard permits but does not promise).
pub lost_wakeup :
    {polls : Bool} {n m k : ℕ} {t u : Threads}
    → t.is_running ≡ false
    → t.caller ≡ joining_closer
    → t.closer ≡ blocked
    → Trace polls n m t k u
    → (u.caller ≡ joining_closer) × (u.closer ≡ blocked)
lost_wakeup off caller closer r =
    let s = Trace-IsLost (record { off = off; caller = caller; closer = closer }) r in
    (s.caller, s.closer)
