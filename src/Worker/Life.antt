-- ===== src/Worker/Life.antt =====
-- The life of one session of NetLib/NetLib as a step relation: its user, the callbacks, the io and
-- process workers, the acceptor and the closing thread call its methods in any order, and the
-- system answers any request that it accepted, at any time and in any way.
use rio_network.Base.{ℕ, ◌+◌, ◌<◌, ◌≡◌, Bool, false, none, some, List, [], ℤ, pos}
use rio_network.Session.{Session, ProcessMode, Reply}
use rio_network.Session.Refs.{attach, close}
use rio_network.Session.Recv.{post_recv}
use rio_network.Session.Process.{Request, Callback, perform, process_packet}
use rio_network.Session.Counts.{
  Answered, recv_posts, send_posts, proc_posts, closings, on_closes, attaches, fails,
}
use rio_network.Worker.{on_recv, on_send, on_failed, on_process, on_process_failed}

-- A session, and how many of its requests the workers have taken up.
pub record Life : Type 0 where
  pub session : Session
  pub answered : Answered

-- A worker takes up a request that was accepted and not answered yet.
abbrev pub take_recv : Life → Answered
take_recv l = record (l.answered) { recv = l.answered.recv + 1 }

abbrev pub take_send : Life → Answered
take_send l = record (l.answered) { send = l.answered.send + 1 }

abbrev pub take_proc : Life → Answered
take_proc l = record (l.answered) { proc = l.answered.proc + 1 }

pub data Step (mode : ProcessMode) (on_dispatch : Session → List ℕ → Callback)
    : Life → Life → Type 0 where
  -- the user, or `Network::DisconnectSession`
  request :
      (l : Life) (r : Request)
      → Step mode on_dispatch l (record l { session = perform r l.session })
  packets :
      (l : Life) (fuel : ℕ) {o : Session × ℤ}
      → process_packet on_dispatch mode fuel l.session ≡ some o
      → Step mode on_dispatch l (record l { session = o.0 })
  -- the first receive, behind `Attach`
  receive :
      (l : Life) (reply : Reply)
      → Step mode on_dispatch l (record l { session = post_recv reply l.session })
  -- the workers
  recv :
      (l : Life) (transferred : ℕ) (bytes : List ℕ) (reply : Reply)
      → l.answered.recv < recv_posts l.session.out
      → Step mode on_dispatch l (record {
        session = on_recv mode transferred bytes reply l.session;
        answered = take_recv l;
      })
  send :
      (l : Life) (transferred : ℕ) (reply : Reply)
      → l.answered.send < send_posts l.session.out
      → Step mode on_dispatch l
          (record { session = on_send transferred reply l.session; answered = take_send l })
  proc :
      (l : Life) (fuel : ℕ) {s : Session}
      → l.answered.proc < proc_posts l.session.out
      → on_process on_dispatch fuel l.session ≡ some s
      → Step mode on_dispatch l (record { session = s; answered = take_proc l })
  recv_failed :
      (l : Life)
      → l.answered.recv < recv_posts l.session.out
      → Step mode on_dispatch l (record { session = on_failed l.session; answered = take_recv l })
  send_failed :
      (l : Life)
      → l.answered.send < send_posts l.session.out
      → Step mode on_dispatch l (record { session = on_failed l.session; answered = take_send l })
  proc_failed :
      (l : Life)
      → l.answered.proc < proc_posts l.session.out
      → Step mode on_dispatch l
          (record { session = on_process_failed l.session; answered = take_proc l })
  -- the closing thread, for a session of its list
  shut :
      (l : Life)
      → on_closes l.session.out < closings l.session.out
      → Step mode on_dispatch l (record l { session = close l.session })
  -- `AllocateSession`, for a session of the free list; the io model may refuse the socket
  reopen :
      (l : Life) (handle : ℕ) (created : Bool)
      → on_closes l.session.out ≡ attaches l.session.out + fails l.session.out
      → Step mode on_dispatch l (record l { session = attach handle created l.session })

-- A session as its constructor leaves it.
pub record IsFresh (s : Session) : Type 0 where
  pub unconnected : s.connect ≡ false
  pub no_socket : s.socket ≡ none
  pub no_refs : s.ref_count ≡ pos 0
  pub no_effects : s.out ≡ []

abbrev pub unanswered : Answered
unanswered = record { recv = 0; send = 0; proc = 0 }

pub data Reach (mode : ProcessMode) (on_dispatch : Session → List ℕ → Callback)
    : Life → Type 0 where
  start :
      (s : Session)
      → IsFresh s
      → Reach mode on_dispatch (record { session = s; answered = unanswered })
  later :
      {l l' : Life}
      → Reach mode on_dispatch l
      → Step mode on_dispatch l l'
      → Reach mode on_dispatch l'
