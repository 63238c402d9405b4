-- ===== src/Threads/Steps.antt =====
-- How many steps the threads make until `Shutdown` is through.
use rio_network.Base.{
  ℕ, suc, ◌+◌, ◌-◌, ◌*◌, ◌≤◌, ◌<◌, ◌≡◌, ◌≢◌, refl, subst, ap, Bool, false, arith, total-bound,
}
use rio_network.Threads.{
  Pc, testing, waiting, handling, ended, Port, WorkerStep, open_, posting_io, posting_process,
  joining_io, joining_process, notifying, joining_closer, returned, Caller, Closer, checking,
  falling, blocked, releasing, over, Threads, wake, stopped, quits_for, CallerStep, stop, post_io,
  posted_io, post_process, posted_process, join_io, joined_io, join_process, joined_process, notify,
  join_closer, CloserStep, take, released, fall, block, finish, Step, io_worker, process_worker,
  closing_thread, shutting_down, Event, io_arrives, process_arrives, listed, Trace, here, step,
  event,
}
use rio_network.Threads.Workers.{steps_left, port_steps, WorkerStep-port_steps}

-- The steps that the caller of `Shutdown` has left.
caller_steps : ℕ → ℕ → Caller → ℕ
caller_steps n m open_ = 0
caller_steps n m (posting_io left) = 8 + m + (m + n) + left
caller_steps n m (posting_process left) = 7 + (m + n) + left
caller_steps n m (joining_io i) = 6 + m + (n - i)
caller_steps n m (joining_process i) = 5 + (m - i)
caller_steps n m notifying = 4
caller_steps n m joining_closer = 1
caller_steps n m returned = 0

closer_steps : Closer → ℕ
closer_steps checking = 1
closer_steps falling = 1
closer_steps blocked = 0
closer_steps releasing = 2
closer_steps over = 0

-- The steps of all threads once `m_Running` is false.
rank : ℕ → ℕ → Threads → ℕ
rank n m t =
    caller_steps n m t.caller
    + closer_steps t.closer
    + 2 * t.closing_count
    + port_steps n t.io
    + port_steps m t.process

woken : (c : Closer) → closer_steps (wake c) ≤ suc (closer_steps c)
unfolding closer_steps
woken checking = omega arith
woken falling = omega arith
woken blocked = omega arith
woken releasing = omega arith
woken over = omega arith

-- `Shutdown` is past `m_Running = false`.
record Shut (t : Threads) : Type 0 where
  off : t.is_running ≡ false
  begun : t.caller ≢ open_

CloserStep-rank :
    (n m : ℕ) {t u : Threads} → Shut t → CloserStep t u → Shut u × (rank n m u < rank n m t)
unfolding rank closer_steps
CloserStep-rank n m s (take e c) =
    (record { off = s.off; begun = s.begun }, omega (arith, ap closer_steps e, c))
CloserStep-rank n m s (released e) =
    (record { off = s.off; begun = s.begun }, omega (arith, ap closer_steps e))
CloserStep-rank n m s (fall e c r) = absurd (ground (arith, r, s.off))
CloserStep-rank n m s (block e) =
    (record { off = s.off; begun = s.begun }, omega (arith, ap closer_steps e))
CloserStep-rank n m s (finish e c r) =
    (record { off = s.off; begun = s.begun }, omega (arith, ap closer_steps e))

module _ {polls : Bool} {n m : ℕ} where
  CallerStep-Shut : {t u : Threads} → Shut t → CallerStep polls n m t u → Shut u
  CallerStep-Shut s (stop e) = absurd (s.begun e)
  CallerStep-Shut s (post_io e) = record { off = s.off; begun = λ h. ground arith }
  CallerStep-Shut s (posted_io e) = record { off = s.off; begun = λ h. ground arith }
  CallerStep-Shut s (post_process e) = record { off = s.off; begun = λ h. ground arith }
  CallerStep-Shut s (posted_process e) = record { off = s.off; begun = λ h. ground arith }
  CallerStep-Shut s (join_io e b d) = record { off = s.off; begun = λ h. ground arith }
  CallerStep-Shut s (joined_io e) = record { off = s.off; begun = λ h. ground arith }
  CallerStep-Shut s (join_process e b d) = record { off = s.off; begun = λ h. ground arith }
  CallerStep-Shut s (joined_process e) = record { off = s.off; begun = λ h. ground arith }
  CallerStep-Shut s (notify e) = record { off = s.off; begun = λ h. ground arith }
  CallerStep-Shut s (join_closer e d) = record { off = s.off; begun = λ h. ground arith }

  CallerStep-rank : {t u : Threads} → Shut t → CallerStep polls n m t u → rank n m u < rank n m t
  unfolding rank caller_steps port_steps
  CallerStep-rank s (stop e) = absurd (s.begun e)
  CallerStep-rank s (post_io {left} e) = omega (arith, ap (caller_steps n m) e)
  CallerStep-rank s (posted_io e) = omega (arith, ap (caller_steps n m) e)
  CallerStep-rank s (post_process e) = omega (arith, ap (caller_steps n m) e)
  CallerStep-rank s (posted_process e) = omega (arith, ap (caller_steps n m) e)
  CallerStep-rank s (join_io e b d) = omega (arith, ap (caller_steps n m) e, b)
  CallerStep-rank s (joined_io e) = omega (arith, ap (caller_steps n m) e)
  CallerStep-rank s (join_process e b d) = omega (arith, ap (caller_steps n m) e, b)
  CallerStep-rank s (joined_process e) = omega (arith, ap (caller_steps n m) e)
  CallerStep-rank {t} s (notify e) = omega (arith, ap (caller_steps n m) e, woken t.closer)
  CallerStep-rank s (join_closer e d) = omega (arith, ap (caller_steps n m) e)

  Step-rank : {t u : Threads} → Shut t → Step polls n m t u → Shut u × (rank n m u < rank n m t)
  unfolding rank
  Step-rank {t} s (io_worker {p} w) = (
    record { off = s.off; begun = s.begun },
    omega (arith, WorkerStep-port_steps (subst (λ r. WorkerStep polls n r t.io p) s.off w)),
  )
  Step-rank {t} s (process_worker {p} w) = (
    record { off = s.off; begun = s.begun },
    omega (arith, WorkerStep-port_steps (subst (λ r. WorkerStep false m r t.process p) s.off w)),
  )
  Step-rank s (closing_thread c) = CloserStep-rank n m s c
  Step-rank s (shutting_down c) = (CallerStep-Shut s c, CallerStep-rank s c)

Event-rank : (n m : ℕ) {t u : Threads} → Shut t → Event t u → Shut u × (rank n m u ≡ rank n m t)
unfolding rank port_steps
Event-rank n m s (io_arrives c k) = (record { off = s.off; begun = s.begun }, refl)
Event-rank n m s (process_arrives c k) = (record { off = s.off; begun = s.begun }, refl)
Event-rank n m s (listed r f) = absurd (ground (arith, r, s.off))

Trace-rank :
    {polls : Bool} {n m : ℕ} {t : Threads} {k : ℕ} {u : Threads}
    → Shut t
    → Trace polls n m t k u
    → Shut u × (k + rank n m u ≤ rank n m t)
Trace-rank s here = (s, omega arith)
Trace-rank s (step r x) =
    let (s', h) = Trace-rank s r in let (s'', l) = Step-rank s' x in (s'', omega (arith, h, l))
Trace-rank {n} {m} s (event r x) =
    let (s', h) = Trace-rank s r in let (s'', e) = Event-rank n m s' x in (s'', omega (arith, h, e))

few_steps : (n : ℕ) (p : Port) → port_steps n p ≤ 3 * n
unfolding port_steps
few_steps n p = total-bound 3 n (λ i. steps_left (p.workers i)) (λ i b. few (p.workers i))
  where
    few : (pc : Pc) → steps_left pc ≤ 3
    few testing = omega arith
    few waiting = omega arith
    few handling = omega arith
    few ended = omega arith

-- Once `Shutdown` has set `m_Running` to false, the threads of the Network can make only so many
-- steps, in any order and whatever completions arrive: four for each io worker, with one more for
-- its null key (none under RIO), five for each process worker, two for each session on the closing
-- list, and ten.
pub shutdown-bounded :
    {polls : Bool} {n m k : ℕ} (t : Threads) {u : Threads}
    → Trace polls n m (stopped polls n t) k u
    → k ≤ 4 * n + quits_for polls n + 5 * m + 2 * t.closing_count + 10
unfolding rank caller_steps closer_steps
shutdown-bounded {polls} {n} {m} t r =
    let (s, h) = Trace-rank (record { off = refl; begun = λ h. ground arith }) r in
    omega (arith, h, few_steps n t.io, few_steps m t.process, closes t.closer)
  where
    closes : (c : Closer) → closer_steps c ≤ 2
    closes checking = omega arith
    closes falling = omega arith
    closes blocked = omega arith
    closes releasing = omega arith
    closes over = omega arith
