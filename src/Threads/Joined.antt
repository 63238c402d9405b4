-- ===== src/Threads/Joined.antt =====
-- The joins of `Shutdown`: which threads are over when it has come so far.
use rio_network.Base.{
  ℕ, suc, ◌≤◌, ◌<◌, ◌≡◌, refl, sym, ap, ◌∙◌, ◌⊎◌, inl, inr, Bool, true, false, arith, ◌==◌,
  Bool-cases,
}
use rio_network.Threads.{
  ended, Port, open_, posting_io, posting_process, joining_io, joining_process, notifying,
  joining_closer, returned, Caller, Closer, over, Threads, started, CallerStep, stop, post_io,
  posted_io, post_process, posted_process, join_io, joined_io, join_process, joined_process, notify,
  join_closer, CloserStep, take, released, fall, block, finish, Step, io_worker, process_worker,
  closing_thread, shutting_down, Event, io_arrives, process_arrives, listed, Trace, here, step,
  event,
}
use rio_network.Threads.Workers.{WorkerStep-ended}

-- How many workers `Shutdown` has joined.
abbrev pub io_done : ℕ → Caller → ℕ
io_done io_count open_ = 0
io_done io_count (posting_io left) = 0
io_done io_count (posting_process left) = 0
io_done io_count (joining_io i) = i
io_done io_count _ = io_count

abbrev pub process_done : ℕ → Caller → ℕ
process_done process_count (joining_process i) = i
process_done process_count notifying = process_count
process_done process_count joining_closer = process_count
process_done process_count returned = process_count
process_done process_count _ = 0

abbrev AllEnded : ℕ → Port → Type 0
AllEnded done p = (i : ℕ) → i < done → p.workers i ≡ ended

pub record Joined (io_count process_count : ℕ) (t : Threads) : Type 0 where
  pub io_bound : io_done io_count t.caller ≤ io_count
  pub process_bound : process_done process_count t.caller ≤ process_count
  pub io : (i : ℕ) → i < io_done io_count t.caller → t.io.workers i ≡ ended
  pub process : (i : ℕ) → i < process_done process_count t.caller → t.process.workers i ≡ ended
  pub running : (t.caller ≡ open_) ⊎ (t.is_running ≡ false)
  pub closer : t.caller ≡ returned → t.closer ≡ over

one_more : (p : Port) {i : ℕ} → AllEnded i p → p.workers i ≡ ended → AllEnded (suc i) p
one_more p {i} all last j b = elim (Bool-cases (j == i)) [
  | inl this ↦ let at : j ≡ i = ground arith in ap p.workers at ∙ last
  | inr other ↦ all j (ground arith)
]

abbrev is_open : Caller → Bool
is_open open_ = true
is_open _ = false

module _ {io_count process_count : ℕ} {t : Threads} (v : Joined io_count process_count t) where
  off : {c : Caller} → t.caller ≡ c → is_open c ≡ false → t.is_running ≡ false
  off e shut = elim v.running [
    | inl o ↦ absurd (ground (arith, shut, ap is_open (sym e ∙ o)))
    | inr r ↦ r
  ]

  -- Another caller that has joined no more.
  relabel :
      (u : Threads) {c c' : Caller}
      → t.caller ≡ c
      → u.caller ≡ c'
      → u.io.workers ≡ t.io.workers
      → u.process.workers ≡ t.process.workers
      → io_done io_count c' ≡ io_done io_count c
      → process_done process_count c' ≡ process_done process_count c
      → u.is_running ≡ false
      → (c' ≡ returned → u.closer ≡ over)
      → Joined io_count process_count u
  relabel u {c} {c'} e e' same_io_workers same_process_workers same_io same_process r closes =
      let more_io : io_done io_count u.caller ≡ io_done io_count t.caller =
        ap (io_done io_count) e' ∙ same_io ∙ sym (ap (io_done io_count) e) in
      let more_process : process_done process_count u.caller ≡ process_done process_count t.caller =
        ap (process_done process_count) e'
        ∙ same_process
        ∙ sym (ap (process_done process_count) e) in
      record {
        io_bound = omega (arith, more_io, v.io_bound);
        process_bound = omega (arith, more_process, v.process_bound);
        io = λ i b. ap (λ f. f i) same_io_workers ∙ v.io i (omega (arith, b, more_io));
        process = λ i b.
            ap (λ f. f i) same_process_workers ∙ v.process i (omega (arith, b, more_process));
        running = inr r;
        closer = λ h. closes (sym e' ∙ h);
      }

  CallerStep-Joined :
      {polls : Bool} {u : Threads}
      → CallerStep polls io_count process_count t u
      → Joined io_count process_count u
  CallerStep-Joined (stop e) = relabel _ e refl refl refl refl refl refl (λ h. ground arith)
  CallerStep-Joined (post_io e) =
      relabel _ e refl refl refl refl refl (off e refl) (λ h. ground arith)
  CallerStep-Joined (posted_io e) =
      relabel _ e refl refl refl refl refl (off e refl) (λ h. ground arith)
  CallerStep-Joined (post_process e) =
      relabel _ e refl refl refl refl refl (off e refl) (λ h. ground arith)
  CallerStep-Joined (posted_process e) =
      relabel _ e refl refl refl refl refl (off e refl) (λ h. ground arith)
  CallerStep-Joined (join_io {i} e b d) = record {
    io_bound = omega (arith, b);
    process_bound = omega arith;
    io = one_more t.io (λ j l. v.io j (omega (arith, l, ap (io_done io_count) e))) d;
    process = λ j l. absurd (omega (arith, l));
    running = inr (off e refl);
    closer = λ h. ground arith;
  }
  CallerStep-Joined (joined_io e) =
      relabel _ e refl refl refl refl refl (off e refl) (λ h. ground arith)
  CallerStep-Joined (join_process {i} e b d) = record {
    io_bound = omega arith;
    process_bound = omega (arith, b);
    io = λ j l. v.io j (omega (arith, l, ap (io_done io_count) e));
    process =
        one_more t.process
          (λ j l. v.process j (omega (arith, l, ap (process_done process_count) e))) d;
    running = inr (off e refl);
    closer = λ h. ground arith;
  }
  CallerStep-Joined (joined_process e) =
      relabel _ e refl refl refl refl refl (off e refl) (λ h. ground arith)
  CallerStep-Joined (notify e) =
      relabel _ e refl refl refl refl refl (off e refl) (λ h. ground arith)
  CallerStep-Joined (join_closer e d) = relabel _ e refl refl refl refl refl (off e refl) (λ h. d)

  -- The closing thread has ended before `Shutdown` returns.
  recloser :
      (count : ℕ) (c : Closer)
      → (t.caller ≡ returned → c ≡ over)
      → Joined io_count process_count (record t { closing_count = count; closer = c })
  recloser count c closes = record {
    io_bound = v.io_bound;
    process_bound = v.process_bound;
    io = v.io;
    process = v.process;
    running = v.running;
    closer = closes;
  }

  CloserStep-Joined : {u : Threads} → CloserStep t u → Joined io_count process_count u
  CloserStep-Joined (take e c) = recloser _ _ (λ h. absurd (ground (arith, e, v.closer h)))
  CloserStep-Joined (released e) = recloser _ _ (λ h. absurd (ground (arith, e, v.closer h)))
  CloserStep-Joined (fall e c r) = recloser _ _ (λ h. absurd (ground (arith, e, v.closer h)))
  CloserStep-Joined (block e) = recloser _ _ (λ h. absurd (ground (arith, e, v.closer h)))
  CloserStep-Joined (finish e c r) = recloser _ _ (λ h. refl)

  Step-Joined :
      {polls : Bool} {u : Threads}
      → Step polls io_count process_count t u
      → Joined io_count process_count u
  Step-Joined (io_worker w) = record {
    io_bound = v.io_bound;
    process_bound = v.process_bound;
    io = λ i b. WorkerStep-ended i w (v.io i b);
    process = v.process;
    running = v.running;
    closer = v.closer;
  }
  Step-Joined (process_worker w) = record {
    io_bound = v.io_bound;
    process_bound = v.process_bound;
    io = v.io;
    process = λ i b. WorkerStep-ended i w (v.process i b);
    running = v.running;
    closer = v.closer;
  }
  Step-Joined (closing_thread c) = CloserStep-Joined c
  Step-Joined (shutting_down c) = CallerStep-Joined c

  Event-Joined : {u : Threads} → Event t u → Joined io_count process_count u
  Event-Joined (io_arrives c k) = record {
    io_bound = v.io_bound;
    process_bound = v.process_bound;
    io = v.io;
    process = v.process;
    running = v.running;
    closer = v.closer;
  }
  Event-Joined (process_arrives c k) = record {
    io_bound = v.io_bound;
    process_bound = v.process_bound;
    io = v.io;
    process = v.process;
    running = v.running;
    closer = v.closer;
  }
  Event-Joined (listed r f) = recloser _ _ (λ h. absurd (ground (arith, r, off h refl)))

started-Joined : (io_count process_count : ℕ) → Joined io_count process_count started
started-Joined io_count process_count = record {
  io_bound = omega arith;
  process_bound = omega arith;
  io = λ i b. absurd (omega (arith, b));
  process = λ i b. absurd (omega (arith, b));
  running = inl refl;
  closer = λ h. ground arith;
}

pub Trace-Joined :
    {polls : Bool} {io_count process_count k : ℕ} {t : Threads}
    → Trace polls io_count process_count started k t
    → Joined io_count process_count t
Trace-Joined here = started-Joined _ _
Trace-Joined (step r s) = Step-Joined (Trace-Joined r) s
Trace-Joined (event r e) = Event-Joined (Trace-Joined r) e

-- When `Shutdown` goes on to destroy the sessions, every io worker has ended, every process worker
-- has ended (there are none in PROCESS_MODE_USER), and the closing thread has ended.
pub returned-ended :
    {polls : Bool} {io_count process_count k : ℕ} {t : Threads}
    → Trace polls io_count process_count started k t
    → t.caller ≡ returned
    → ((i : ℕ) → i < io_count → t.io.workers i ≡ ended)
      × ((j : ℕ) → j < process_count → t.process.workers j ≡ ended)
      × (t.closer ≡ over)
returned-ended {io_count} {process_count} r e =
    let v = Trace-Joined r in
    (
      λ i b. v.io i (omega (arith, b, ap (io_done io_count) e)),
      λ j c. v.process j (omega (arith, c, ap (process_done process_count) e)),
      v.closer e,
    )
