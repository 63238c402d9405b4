-- ===== src/Threads/Tests.antt =====
-- The threads of a Network with one io worker and one process worker, on concrete schedules.
use rio_network.Base.{ℕ, suc, ◌≤◌, ◌<◌, ◌≡◌, inl, refl, Bool, true, false, arith}
use rio_network.Threads.{
  request, ended, enter, leave, quits, takes, handled, sleeps, turn, joining_closer, blocked, over,
  Threads, started, stopped, stop, post_io, posted_io, post_process, posted_process, join_io,
  joined_io, join_process, joined_process, notify, join_closer, fall, block, finish, Step,
  io_worker, process_worker, closing_thread, shutting_down, io_arrives, Trace, here, step, event,
}
use rio_network.Threads.Joined.{returned-ended}
use rio_network.Threads.Missed.{Missed}
use rio_network.Threads.Steps.{shutdown-bounded}
use rio_network.Threads.Lost.{lost_wakeup}

infixl 5 ◌▸◌
abbrev ◌▸◌ :
    {polls : Bool} {t : Threads} {k : ℕ} {u v : Threads}
    → Trace polls 1 1 t k u
    → Step polls 1 1 u v
    → Trace polls 1 1 t (suc k) v
r ▸ s = step r s

abbrev Run : Bool → Threads → Type 0
Run polls t = (k : ℕ) × (u : Threads) × Trace polls 1 1 t k u

-- Both workers wait and the closing thread sleeps; a request arrives and the io worker takes it.
abbrev busy : Run false started
busy = (
  _,
  _,
  event
        (here
          ▸ io_worker (turn 0 (omega arith) (enter refl))
          ▸ process_worker (turn 0 (omega arith) (enter refl))
          ▸ closing_thread (fall refl refl refl)
          ▸ closing_thread (block refl))
        (io_arrives request (inl refl))
      ▸ io_worker (turn 0 (omega arith) (takes refl)),
)

-- `Shutdown` from there to its end; the io worker sees `m_Running`, the process worker a null key.
abbrev ending : Run false (stopped false 1 busy.1)
ending = (
  _,
  _,
  here
      ▸ shutting_down (post_io refl)
      ▸ shutting_down (posted_io refl)
      ▸ shutting_down (post_process refl)
      ▸ process_worker (turn 0 (omega arith) (quits refl))
      ▸ io_worker (turn 0 (omega arith) handled)
      ▸ shutting_down (posted_process refl)
      ▸ io_worker (turn 0 (omega arith) (leave refl))
      ▸ shutting_down (join_io refl (omega arith) refl)
      ▸ shutting_down (joined_io refl)
      ▸ shutting_down (join_process refl (omega arith) refl)
      ▸ shutting_down (joined_process refl)
      ▸ shutting_down (notify refl)
      ▸ closing_thread (finish refl refl refl)
      ▸ shutting_down (join_closer refl refl),
)

-- The same `Shutdown` under RIO, with the closing thread caught between its test and its wait.
abbrev hanging : Run true started
hanging = (
  _,
  _,
  here
      ▸ io_worker (turn 0 (omega arith) (enter refl))
      ▸ closing_thread (fall refl refl refl)
      ▸ shutting_down (stop refl)
      ▸ io_worker (turn 0 (omega arith) (sleeps refl))
      ▸ io_worker (turn 0 (omega arith) (leave refl))
      ▸ process_worker (turn 0 (omega arith) (leave refl))
      ▸ shutting_down (posted_io refl)
      ▸ shutting_down (post_process refl)
      ▸ shutting_down (posted_process refl)
      ▸ shutting_down (join_io refl (omega arith) refl)
      ▸ shutting_down (joined_io refl)
      ▸ shutting_down (join_process refl (omega arith) refl)
      ▸ shutting_down (joined_process refl)
      ▸ shutting_down (notify refl)
      ▸ closing_thread (block refl),
)

append :
    {t u : Threads} {j k : ℕ} {v : Threads}
    → Trace false 1 1 t j u
    → Trace false 1 1 u k v
    → (l : ℕ) × Trace false 1 1 t l v
append r here = (_, r)
append r (step s x) = (_, step (append r s).1 x)
append r (event s x) = (_, event (append r s).1 x)

returned-ended_example :
    ((i : ℕ) → i < 1 → ending.1.io.workers i ≡ ended)
    × ((j : ℕ) → j < 1 → ending.1.process.workers j ≡ ended)
    × (ending.1.closer ≡ over)
returned-ended_example =
    returned-ended (append (busy.2 ▸ shutting_down (stop refl)) ending.2).1 refl

shutdown-bounded_example : ending.0 ≤ 20
shutdown-bounded_example = shutdown-bounded {n = 1} {m = 1} busy.1 ending.2

-- A completion that still arrives does not help.
abbrev after_all : Run true hanging.1
after_all = (_, _, event here (io_arrives request (inl refl)))

lost_wakeup_example : (after_all.1.caller ≡ joining_closer) × (after_all.1.closer ≡ blocked)
lost_wakeup_example = lost_wakeup refl refl refl after_all.2
