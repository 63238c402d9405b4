-- ===== src/Threads/Missed.antt =====
-- How the closing thread can come to sleep at the join of `Shutdown` (Network.cpp, 418): it was between
-- its test and its wait when `notify_all` was called.
use rio_network.Base.{ℕ, ◌≡◌, refl, ap, inl, inr, Bool, true, false, arith}
use rio_network.Threads.{
  notifying, joining_closer, Closer, checking, falling, blocked, releasing, over, Threads, started,
  stop, post_io, posted_io, post_process, posted_process, join_io, joined_io, join_process,
  joined_process, notify, join_closer, wake, take, released, fall, block, finish, Step, io_worker,
  process_worker, closing_thread, shutting_down, Event, io_arrives, process_arrives, listed, Trace,
  here, step, event,
}
use rio_network.Threads.Joined.{Trace-Joined}

-- The state before `notify_all`, from which the trace goes on to this one.
pub record Missed (polls : Bool) (n m : ℕ) (t : Threads) : Type 0 where
  pub steps : ℕ
  pub later_steps : ℕ
  pub then_ : Threads
  pub reached : Trace polls n m started steps then_
  pub caller : then_.caller ≡ notifying
  pub closer : then_.closer ≡ falling
  pub goes_on : Trace polls n m then_ later_steps t

-- The closing thread is between its test and its wait, or waits.
abbrev pub is_asleep : Closer → Bool
is_asleep falling = true
is_asleep blocked = true
is_asleep _ = false

woken_asleep : (c : Closer) → is_asleep (wake c) ≡ true → c ≡ falling
woken_asleep checking a = absurd (ground arith)
woken_asleep falling a = refl
woken_asleep blocked a = absurd (ground arith)
woken_asleep releasing a = absurd (ground arith)
woken_asleep over a = absurd (ground arith)

module _ {polls : Bool} {n m : ℕ} where
  off :
      {k : ℕ} {t : Threads}
      → Trace polls n m started k t
      → t.caller ≡ joining_closer
      → t.is_running ≡ false
  off r e = elim (Trace-Joined r).running [ inl o ↦ absurd (ground (arith, e, o)) | inr h ↦ h ]

  later : {t u : Threads} → Step polls n m t u → Missed polls n m t → Missed polls n m u
  later s h = record {
    steps = h.steps;
    later_steps = _;
    then_ = h.then_;
    reached = h.reached;
    caller = h.caller;
    closer = h.closer;
    goes_on = step h.goes_on s;
  }

  meanwhile : {t u : Threads} → Event t u → Missed polls n m t → Missed polls n m u
  meanwhile s h = record {
    steps = h.steps;
    later_steps = _;
    then_ = h.then_;
    reached = h.reached;
    caller = h.caller;
    closer = h.closer;
    goes_on = event h.goes_on s;
  }

  -- One that sleeps at the join was on its way to sleep when `notify_all` came.
  pub asleep-Missed :
      {k : ℕ} {t : Threads}
      → Trace polls n m started k t
      → t.caller ≡ joining_closer
      → is_asleep t.closer ≡ true
      → Missed polls n m t
  asleep-Missed here e a = absurd (ground (arith, e))
  asleep-Missed (step r (io_worker w)) e a = later (io_worker w) (asleep-Missed r e a)
  asleep-Missed (step r (process_worker w)) e a = later (process_worker w) (asleep-Missed r e a)
  asleep-Missed (step r (closing_thread (take h c))) e a = absurd (ground (arith, a))
  asleep-Missed (step r (closing_thread (released h))) e a = absurd (ground (arith, a))
  asleep-Missed (step r (closing_thread (fall h c running))) e a =
      absurd (ground (arith, running, off r e))
  asleep-Missed (step r (closing_thread (block h))) e a =
      later (closing_thread (block h)) (asleep-Missed r e (ap is_asleep h))
  asleep-Missed (step r (closing_thread (finish h c running))) e a = absurd (ground (arith, a))
  asleep-Missed (step r (shutting_down (stop h))) e a = absurd (ground (arith, e))
  asleep-Missed (step r (shutting_down (post_io h))) e a = absurd (ground (arith, e))
  asleep-Missed (step r (shutting_down (posted_io h))) e a = absurd (ground (arith, e))
  asleep-Missed (step r (shutting_down (post_process h))) e a = absurd (ground (arith, e))
  asleep-Missed (step r (shutting_down (posted_process h))) e a = absurd (ground (arith, e))
  asleep-Missed (step r (shutting_down (join_io h b d))) e a = absurd (ground (arith, e))
  asleep-Missed (step r (shutting_down (joined_io h))) e a = absurd (ground (arith, e))
  asleep-Missed (step r (shutting_down (join_process h b d))) e a = absurd (ground (arith, e))
  asleep-Missed (step r (shutting_down (joined_process h))) e a = absurd (ground (arith, e))
  asleep-Missed (step {u = u} r (shutting_down (notify h))) e a = record {
    steps = _;
    later_steps = _;
    then_ = u;
    reached = r;
    caller = h;
    closer = woken_asleep u.closer a;
    goes_on = step here (shutting_down (notify h));
  }
  asleep-Missed (step r (shutting_down (join_closer h d))) e a = absurd (ground (arith, e))
  asleep-Missed (event r (io_arrives c k)) e a = meanwhile (io_arrives c k) (asleep-Missed r e a)
  asleep-Missed (event r (process_arrives c k)) e a =
      meanwhile (process_arrives c k) (asleep-Missed r e a)
  asleep-Missed (event r (listed running f)) e a = absurd (ground (arith, running, off r e))
