-- ===== src/Threads/Supply.antt =====
-- The null keys of `Shutdown`: each worker that has to be woken finds one.
use rio_network.Base.{
  ℕ, suc, ◌+◌, ◌≤◌, ◌≡◌, refl, subst, ap, ◌⊎◌, inl, inr, Bool, true, false, [], ◌∷◌, arith,
  total-full,
}
use rio_network.Threads.{
  Completion, quit, testing, Port, WorkerStep, open_, posting_io, posting_process, Caller, Threads,
  started, arrive, quits_for, CallerStep, stop, post_io, posted_io, post_process, posted_process,
  join_io, joined_io, join_process, joined_process, notify, join_closer, CloserStep, take, released,
  fall, block, finish, Step, io_worker, process_worker, closing_thread, shutting_down, Event,
  io_arrives, process_arrives, listed, Trace, here, step, event,
}
use rio_network.Threads.Workers.{
  live, quit_count, quit_count-append, live_count, WorkerStep-live_count,
}

-- The null keys that `Shutdown` has still to post.
abbrev pub io_left : ℕ → Caller → ℕ
io_left io_count open_ = io_count
io_left io_count (posting_io left) = left
io_left io_count _ = 0

abbrev pub process_left : ℕ → Caller → ℕ
process_left process_count open_ = process_count
process_left process_count (posting_io left) = process_count
process_left process_count (posting_process left) = left
process_left process_count _ = 0

abbrev Enough : ℕ → Port → ℕ → Type 0
Enough count p left = live_count count p ≤ quit_count p.queue + left

pub record Supplied (polls : Bool) (io_count process_count : ℕ) (t : Threads) : Type 0 where
  pub io : (polls ≡ true) ⊎ Enough io_count t.io (io_left io_count t.caller)
  pub process : Enough process_count t.process (process_left process_count t.caller)

io_worker-Enough :
    {polls is_running : Bool} {count : ℕ} {p p' : Port} (left : ℕ)
    → WorkerStep polls count is_running p p'
    → (polls ≡ true) ⊎ Enough count p left
    → (polls ≡ true) ⊎ Enough count p' left
io_worker-Enough {polls = true} left w h = inl refl
io_worker-Enough {polls = false} left w (inl polling) = absurd (ground arith)
io_worker-Enough {polls = false} left w (inr h) = inr (WorkerStep-live_count left w h)

arrive-Enough :
    (c : Completion) (count : ℕ) (p : Port) (left : ℕ)
    → Enough count p left
    → Enough count (arrive c p) left
unfolding live_count
arrive-Enough c count p left h = omega (arith, h, quit_count-append p.queue (c ∷ []))

quit-Enough :
    (count : ℕ) (p : Port) (left : ℕ)
    → Enough count p (suc left)
    → Enough count (arrive quit p) left
unfolding live_count
quit-Enough count p left h = omega (arith, h, quit_count-append p.queue (quit ∷ []))

quits_for-Enough :
    (polls : Bool) (count : ℕ) (p : Port)
    → (polls ≡ true) ⊎ Enough count p count
    → (polls ≡ true) ⊎ Enough count p (quits_for polls count)
quits_for-Enough true count p h = inl refl
quits_for-Enough false count p h = h

weaken :
    {polls : Bool} (count : ℕ) (p : Port) {left left' : ℕ}
    → left ≡ left'
    → (polls ≡ true) ⊎ Enough count p left
    → (polls ≡ true) ⊎ Enough count p left'
weaken {polls} count p e h = subst (λ l. (polls ≡ true) ⊎ Enough count p l) e h

module _ {polls : Bool} {io_count process_count : ℕ} {t : Threads}
    (v : Supplied polls io_count process_count t) where
  -- Another caller with as many null keys left to post.
  relabel :
      (c : Caller)
      → io_left io_count t.caller ≡ io_left io_count c
      → process_left process_count t.caller ≡ process_left process_count c
      → Supplied polls io_count process_count (record t { caller = c })
  relabel c same_io same_process = record {
    io = weaken io_count t.io same_io v.io;
    process = subst (Enough process_count t.process) same_process v.process;
  }

  CallerStep-Supplied :
      {u : Threads}
      → CallerStep polls io_count process_count t u
      → Supplied polls io_count process_count u
  CallerStep-Supplied (stop e) = record {
    io = quits_for-Enough polls io_count t.io (weaken io_count t.io (ap (io_left io_count) e) v.io);
    process = subst (Enough process_count t.process) (ap (process_left process_count) e) v.process;
  }
  CallerStep-Supplied (post_io {left} e) = record {
    io = elim v.io [
      | inl polling ↦ inl polling
      | inr h ↦ inr (quit-Enough io_count t.io left (omega (arith, h, ap (io_left io_count) e)))
    ];
    process = subst (Enough process_count t.process) (ap (process_left process_count) e) v.process;
  }
  CallerStep-Supplied (posted_io e) =
      relabel _ (ap (io_left io_count) e) (ap (process_left process_count) e)
  CallerStep-Supplied (post_process {left} e) = record {
    io = weaken io_count t.io (ap (io_left io_count) e) v.io;
    process =
        quit-Enough process_count t.process left
          (subst (Enough process_count t.process) (ap (process_left process_count) e) v.process);
  }
  CallerStep-Supplied (posted_process e) =
      relabel _ (ap (io_left io_count) e) (ap (process_left process_count) e)
  CallerStep-Supplied (join_io e b d) =
      relabel _ (ap (io_left io_count) e) (ap (process_left process_count) e)
  CallerStep-Supplied (joined_io e) =
      relabel _ (ap (io_left io_count) e) (ap (process_left process_count) e)
  CallerStep-Supplied (join_process e b d) =
      relabel _ (ap (io_left io_count) e) (ap (process_left process_count) e)
  CallerStep-Supplied (joined_process e) =
      relabel _ (ap (io_left io_count) e) (ap (process_left process_count) e)
  CallerStep-Supplied (notify e) = record {
    io = weaken io_count t.io (ap (io_left io_count) e) v.io;
    process = subst (Enough process_count t.process) (ap (process_left process_count) e) v.process;
  }
  CallerStep-Supplied (join_closer e d) =
      relabel _ (ap (io_left io_count) e) (ap (process_left process_count) e)

  CloserStep-Supplied : {u : Threads} → CloserStep t u → Supplied polls io_count process_count u
  CloserStep-Supplied (take e c) = record { io = v.io; process = v.process }
  CloserStep-Supplied (released e) = record { io = v.io; process = v.process }
  CloserStep-Supplied (fall e c r) = record { io = v.io; process = v.process }
  CloserStep-Supplied (block e) = record { io = v.io; process = v.process }
  CloserStep-Supplied (finish e c r) = record { io = v.io; process = v.process }

  Step-Supplied :
      {u : Threads}
      → Step polls io_count process_count t u
      → Supplied polls io_count process_count u
  Step-Supplied (io_worker w) = record {
    io = io_worker-Enough (io_left io_count t.caller) w v.io;
    process = v.process;
  }
  Step-Supplied (process_worker w) = record {
    io = v.io;
    process = WorkerStep-live_count (process_left process_count t.caller) w v.process;
  }
  Step-Supplied (closing_thread c) = CloserStep-Supplied c
  Step-Supplied (shutting_down c) = CallerStep-Supplied c

  Event-Supplied : {u : Threads} → Event t u → Supplied polls io_count process_count u
  Event-Supplied (io_arrives c k) = record {
    io = elim v.io [
      | inl polling ↦ inl polling
      | inr h ↦ inr (arrive-Enough c io_count t.io (io_left io_count t.caller) h)
    ];
    process = v.process;
  }
  Event-Supplied (process_arrives c k) = record {
    io = v.io;
    process =
        arrive-Enough c process_count t.process (process_left process_count t.caller) v.process;
  }
  Event-Supplied (listed r f) = record { io = v.io; process = v.process }

started-Supplied :
    (polls : Bool) (io_count process_count : ℕ) → Supplied polls io_count process_count started
unfolding live_count
started-Supplied polls io_count process_count = record {
  io = inr (omega (arith, total-full io_count (λ i. live testing) (λ i b. refl)));
  process = omega (arith, total-full process_count (λ i. live testing) (λ i b. refl));
}

pub Trace-Supplied :
    {polls : Bool} {io_count process_count k : ℕ} {t : Threads}
    → Trace polls io_count process_count started k t
    → Supplied polls io_count process_count t
Trace-Supplied here = started-Supplied _ _ _
Trace-Supplied (step r s) = Step-Supplied (Trace-Supplied r) s
Trace-Supplied (event r e) = Event-Supplied (Trace-Supplied r) e
