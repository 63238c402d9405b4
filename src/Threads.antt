-- ===== src/Threads.antt =====
-- NetLib/NetLib/Network.cpp: the threads of a Network and how `Shutdown` ends them. The io workers
-- (`RunIOWorker` of both io models), the process workers (`ProcessWorkerThreadEntry`), the closing
-- thread (`ClosingThreadEntry`) and the thread that calls `Shutdown` are interleaved in any order;
-- what a worker does with a request is in Worker.
pub mod Workers
pub mod Supply
pub mod Joined
pub mod Steps
pub mod Progress
pub mod Missed
pub mod Lost
mod Tests
use rio_network.Base.{
  ℕ, suc, ◌<◌, ◌≡◌, ◌≢◌, ◌⊎◌, Bool, true, false, List, [], ◌∷◌, ◌++◌, if◌then◌else◌, update,
}

-- What a completion port holds: the null key that `Shutdown` posts, a completed request of a
-- session, or one that `GetQueuedCompletionStatus` reports as failed.
pub data Completion : Type 0 where
  quit request failed : Completion

-- Where a worker stands: before its test of `m_Running`, in the call that takes a completion, busy
-- with a request (or, under RIO, with a batch of results), or out of its loop.
pub data Pc : Type 0 where
  testing waiting handling ended : Pc

-- One step of one worker, with the queue of its port. `polls` is the RIO model, which takes results
-- from a queue of Windows and sleeps when it has none.
pub data Turn (polls is_running : Bool) : List Completion → Pc → List Completion → Pc → Type 0 where
  enter : {q : List Completion} → is_running ≡ true → Turn polls is_running q testing q waiting
  leave : {q : List Completion} → is_running ≡ false → Turn polls is_running q testing q ended
  quits : {q : List Completion} → polls ≡ false → Turn polls is_running (quit ∷ q) waiting q ended
  takes :
      {q : List Completion} → polls ≡ false → Turn polls is_running (request ∷ q) waiting q handling
  fails :
      {q : List Completion} → polls ≡ false → Turn polls is_running (failed ∷ q) waiting q testing
  sleeps : {q : List Completion} → polls ≡ true → Turn polls is_running q waiting q testing
  breaks : {q : List Completion} → polls ≡ true → Turn polls is_running q waiting q ended
  fetches : {q : List Completion} → polls ≡ true → Turn polls is_running q waiting q handling
  handled : {q : List Completion} → Turn polls is_running q handling q testing

-- A completion port with its workers.
pub record Port : Type 0 where
  pub queue : List Completion
  pub workers : ℕ → Pc

pub data WorkerStep (polls : Bool) (count : ℕ) (is_running : Bool) (p : Port) : Port → Type 0 where
  turn :
      (i : ℕ) {q : List Completion} {pc : Pc}
      → i < count
      → Turn polls is_running p.queue (p.workers i) q pc
      → WorkerStep polls count is_running p (record { queue = q; workers = update p.workers i pc })

-- The closing thread: it holds the lock and tests its predicate, is about to wait with the lock
-- still held, waits, releases a session, or has ended.
pub data Closer : Type 0 where
  checking falling blocked releasing over : Closer

-- Where the thread that calls `Shutdown` stands: before `m_Running = false`, with so many null keys
-- left to post, at the join of a worker, before and after `notify_all`, or past the last join.
pub data Caller : Type 0 where
  open_ notifying joining_closer returned : Caller
  posting_io posting_process joining_io joining_process : ℕ → Caller

pub record Threads : Type 0 where
  pub is_running : Bool
  pub io : Port
  pub process : Port
  -- the length of `m_ClosingSessionList`
  pub closing_count : ℕ
  pub closer : Closer
  pub caller : Caller

-- `StartThread`; in PROCESS_MODE_USER there are no process workers.
abbrev pub started : Threads
started = record {
  is_running = true;
  io = record { queue = []; workers = λ i. testing };
  process = record { queue = []; workers = λ i. testing };
  closing_count = 0;
  closer = checking;
  caller = open_;
}

-- `notify_all`: only a thread that waits notices.
abbrev pub wake : Closer → Closer
wake blocked = checking
wake c = c

-- `PostStatus`: a completion at the end of the queue.
abbrev pub arrive : Completion → Port → Port
arrive c p = record p { queue = p.queue ++ (c ∷ []) }

-- `EnqueueIO(0, 0, 0)` and `EnqueueProcess(0, 0, 0)`
abbrev pub post_quit : Port → Port
post_quit p = arrive quit p

-- `m_IOModel->Shutdown()` posts one null key for each io worker, or none under RIO.
abbrev pub quits_for : Bool → ℕ → ℕ
quits_for polls io_count = if polls then 0 else io_count

pub data CloserStep (t : Threads) : Threads → Type 0 where
  take :
      {n : ℕ}
      → t.closer ≡ checking
      → t.closing_count ≡ suc n
      → CloserStep t (record t { closer = releasing; closing_count = n })
  released : t.closer ≡ releasing → CloserStep t (record t { closer = checking })
  fall :
      t.closer ≡ checking
      → t.closing_count ≡ 0
      → t.is_running ≡ true
      → CloserStep t (record t { closer = falling })
  block : t.closer ≡ falling → CloserStep t (record t { closer = blocked })
  finish :
      t.closer ≡ checking
      → t.closing_count ≡ 0
      → t.is_running ≡ false
      → CloserStep t (record t { closer = over })

-- `Shutdown` from `m_Running = false` to the join of the closing thread.
abbrev pub stopped : Bool → ℕ → Threads → Threads
stopped polls io_count t = record t {
  is_running = false;
  caller = posting_io (quits_for polls io_count);
}

pub data CallerStep (polls : Bool) (io_count process_count : ℕ) (t : Threads)
    : Threads → Type 0 where
  stop : t.caller ≡ open_ → CallerStep polls io_count process_count t (stopped polls io_count t)
  post_io :
      {left : ℕ}
      → t.caller ≡ posting_io (suc left)
      → CallerStep polls io_count process_count t
          (record t { io = post_quit t.io; caller = posting_io left })
  posted_io :
      t.caller ≡ posting_io 0
      → CallerStep polls io_count process_count t
          (record t { caller = posting_process process_count })
  post_process :
      {left : ℕ}
      → t.caller ≡ posting_process (suc left)
      → CallerStep polls io_count process_count t
          (record t { process = post_quit t.process; caller = posting_process left })
  posted_process :
      t.caller ≡ posting_process 0
      → CallerStep polls io_count process_count t (record t { caller = joining_io 0 })
  join_io :
      {i : ℕ}
      → t.caller ≡ joining_io i
      → i < io_count
      → t.io.workers i ≡ ended
      → CallerStep polls io_count process_count t (record t { caller = joining_io (suc i) })
  joined_io :
      t.caller ≡ joining_io io_count
      → CallerStep polls io_count process_count t (record t { caller = joining_process 0 })
  join_process :
      {i : ℕ}
      → t.caller ≡ joining_process i
      → i < process_count
      → t.process.workers i ≡ ended
      → CallerStep polls io_count process_count t (record t { caller = joining_process (suc i) })
  joined_process :
      t.caller ≡ joining_process process_count
      → CallerStep polls io_count process_count t (record t { caller = notifying })
  notify :
      t.caller ≡ notifying
      → CallerStep polls io_count process_count t
          (record t { closer = wake t.closer; caller = joining_closer })
  join_closer :
      t.caller ≡ joining_closer
      → t.closer ≡ over
      → CallerStep polls io_count process_count t (record t { caller = returned })

-- One step of one thread of the Network.
pub data Step (polls : Bool) (io_count process_count : ℕ) (t : Threads) : Threads → Type 0 where
  io_worker :
      {p : Port}
      → WorkerStep polls io_count t.is_running t.io p
      → Step polls io_count process_count t (record t { io = p })
  process_worker :
      {p : Port}
      → WorkerStep false process_count t.is_running t.process p
      → Step polls io_count process_count t (record t { process = p })
  closing_thread : {u : Threads} → CloserStep t u → Step polls io_count process_count t u
  shutting_down :
      {u : Threads}
      → CallerStep polls io_count process_count t u
      → Step polls io_count process_count t u

-- What comes from outside: a completion other than the null key arrives at a port (from Windows or
-- from `PostProcess`), or `AddClosingSession` puts a session on the list, which needs the lock. Every
-- session is closed when `Shutdown` sets `m_Running`, so that none is put on the list from then on.
pub data Event (t : Threads) : Threads → Type 0 where
  io_arrives :
      (c : Completion) → (c ≡ request) ⊎ (c ≡ failed) → Event t (record t { io = arrive c t.io })
  process_arrives :
      (c : Completion)
      → (c ≡ request) ⊎ (c ≡ failed)
      → Event t (record t { process = arrive c t.process })
  listed :
      t.is_running ≡ true
      → t.closer ≢ falling
      → Event t (record t { closing_count = suc t.closing_count; closer = wake t.closer })

-- A run of the threads: the number counts their steps, not the events.
pub data Trace (polls : Bool) (io_count process_count : ℕ) (t : Threads)
    : ℕ → Threads → Type 0 where
  here : Trace polls io_count process_count t 0 t
  step :
      {k : ℕ} {u v : Threads}
      → Trace polls io_count process_count t k u
      → Step polls io_count process_count u v
      → Trace polls io_count process_count t (suc k) v
  event :
      {k : ℕ} {u v : Threads}
      → Trace polls io_count process_count t k u
      → Event u v
      → Trace polls io_count process_count t k v
