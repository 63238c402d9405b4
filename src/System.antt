-- ===== src/System.antt =====
-- A Network of NetLib/NetLib with its sessions, run by all its threads: every step is one call of a
-- method of a session (by the user, a callback, a worker or `Network::DisconnectSession`), one
-- `AllocateSession` (by the acceptor or `ConnectSession`), or one round of the closing thread.
pub mod Whole
pub mod Steps
pub mod Reuse
pub mod Rounds
pub mod RioRounds
pub mod ProcessRounds
pub mod Shutdown
mod Tests
use rio_network.Base.{ℕ, ◌<◌, ◌≤◌, ◌≡◌, Bool, true, List, [], update}
use rio_network.Session.{Session, ProcessMode}
use rio_network.Session.Counts.{Answered}
use rio_network.Session.Process.{Callback}
use rio_network.Worker.Life.{Life, Step, IsFresh, unanswered}
use rio_network.Worker.Method.{is_method}
use rio_network.Network.{Network, call, allocate_session, closing_round, released, start, running}

-- The pool, and how many requests of each session the workers have taken up.
pub record System : Type 0 where
  pub network : Network
  pub answered : ℕ → Answered

abbrev pub life : System → ℕ → Life
life y k = record { session = y.network.sessions k; answered = y.answered k }

-- The system when a method has left its session so.
abbrev pub moved : System → ℕ → Life → System
moved y k l = record {
  network = call (λ _. l.session) k y.network;
  answered = update y.answered k l.answered;
}

pub data SystemStep (mode : ProcessMode) (on_dispatch : Session → List ℕ → Callback)
    : System → System → Type 0 where
  method :
      (y : System) (k : ℕ) {l : Life}
      → k < y.network.max_session_count
      → (st : Step mode on_dispatch (life y k) l) → is_method st ≡ true
      → SystemStep mode on_dispatch y (moved y k l)
  -- a socket that the io model takes, or, with `created` false under RIO, refuses
  allocate :
      (y : System) (handle : ℕ) (created : Bool)
      → SystemStep mode on_dispatch y
          (record y { network = (allocate_session handle created y.network).0 })
  close :
      (y : System) (is_running : Bool) {n : Network}
      → closing_round is_running y.network ≡ released n
      → SystemStep mode on_dispatch y (record y { network = n })

-- What `Start` is given: fresh sessions that know their index, at most 65535 of them, a processor,
-- and empty lists.
pub record IsStartable (make : ℕ → Session) (fuel processors : ℕ) (n : Network) : Type 0 where
  pub named : (i : ℕ) → (make i).id ≡ i
  pub fresh : (i : ℕ) → IsFresh (make i)
  pub small : n.max_session_count ≤ 65535
  pub enough : n.max_session_count < fuel
  pub some_processor : 0 < processors
  pub unused : n.free ≡ []
  pub none_closing : n.closing ≡ []

pub data SystemReach (mode : ProcessMode) (on_dispatch : Session → List ℕ → Callback)
    : System → Type 0 where
  begin :
      {make : ℕ → Session} {fuel processors : ℕ} {n n' : Network}
      → IsStartable make fuel processors n
      → start make fuel processors true n ≡ running n'
      → SystemReach mode on_dispatch (record { network = n'; answered = λ k. unanswered })
  after :
      {y y' : System}
      → SystemReach mode on_dispatch y
      → SystemStep mode on_dispatch y y'
      → SystemReach mode on_dispatch y'
