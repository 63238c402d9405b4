-- ===== src/System/Rounds.antt =====
-- `RunIOWorker` of NetLib/NetLib/Network.cpp (IOCP) in a running Network: the rounds of an io worker,
-- each with a completion that answers a request of a session.
use rio_network.Base.{
  ℕ, ◌+◌, ◌<◌, ◌≡◌, refl, Bool, true, false, List, [], ◌∷◌, update, if◌then◌else◌,
}
use rio_network.Session.{Session, ProcessMode}
use rio_network.Session.Counts.{Answered, recv_posts, send_posts}
use rio_network.Session.Process.{Callback}
use rio_network.Worker.Life
use rio_network.Worker.Life.{take_recv, take_send}
use rio_network.Network.{call}
use rio_network.Network.Workers.{
  Dequeued, failed, recv_failed, send_failed, shut_down, recv_done, send_done, other, run_io_worker,
}
use rio_network.System.{System, life, SystemReach, method, after}

-- The completion answers a request that the system accepted from the session and that no worker has
-- taken up. No request of another io type is ever posted.
abbrev IsAnswer : System → Dequeued → Type 0
IsAnswer y failed = Unit
IsAnswer y shut_down = Unit
IsAnswer y (recv_failed k) =
    (k < y.network.max_session_count)
    × ((y.answered k).recv < recv_posts (y.network.sessions k).out)
IsAnswer y (send_failed k) =
    (k < y.network.max_session_count)
    × ((y.answered k).send < send_posts (y.network.sessions k).out)
IsAnswer y (recv_done k transferred bytes reply) =
    (k < y.network.max_session_count)
    × ((y.answered k).recv < recv_posts (y.network.sessions k).out)
IsAnswer y (send_done k transferred reply) =
    (k < y.network.max_session_count)
    × ((y.answered k).send < send_posts (y.network.sessions k).out)
IsAnswer y (other k) = ⊥

-- The request that a completion takes up.
abbrev took : Dequeued → (ℕ → Answered) → ℕ → Answered
took (recv_failed k) a = update a k (record (a k) { recv = (a k).recv + 1 })
took (send_failed k) a = update a k (record (a k) { send = (a k).send + 1 })
took (recv_done k _ _ _) a = update a k (record (a k) { recv = (a k).recv + 1 })
took (send_done k _ _) a = update a k (record (a k) { send = (a k).send + 1 })
took _ a = a

-- The round is the last: `m_Running` is false, or the completion is the null key.
abbrev is_last : Bool × Dequeued → Bool
is_last (false, d) = true
is_last (true, shut_down) = true
is_last (true, _) = false

-- The rounds before the last.
abbrev pub rounds : List (Bool × Dequeued) → List (Bool × Dequeued)
rounds [] = []
rounds (r ∷ rs) = let rest = rounds rs in if is_last r then [] else r ∷ rest

abbrev pub all_took : List (Bool × Dequeued) → (ℕ → Answered) → ℕ → Answered
all_took [] a = a
all_took (r ∷ rs) a = all_took rs (took r.1 a)

-- The system behind one round.
abbrev behind : ProcessMode → Dequeued → System → System
behind mode d y = record {
  network = (run_io_worker mode ((true, d) ∷ []) y.network).0;
  answered = took d y.answered;
}

-- Every completion is an answer when its round comes.
abbrev AllAnswers : ProcessMode → List (Bool × Dequeued) → System → Type 0
AllAnswers mode [] y = Unit
AllAnswers mode (r ∷ rs) y = IsAnswer y r.1 × AllAnswers mode rs (behind mode r.1 y)

abbrev any_last : List (Bool × Dequeued) → Bool
any_last [] = false
any_last (r ∷ rs) = let rest = any_last rs in if is_last r then true else rest

module _ {mode : ProcessMode} {on_dispatch : Session → List ℕ → Callback} where
  -- When an io worker (IOCP) makes rounds in a row, from a state that the running Network can reach
  -- and with completions that answer accepted requests, it leaves such a state again, in which the
  -- requests of all completions before its last round, the failed ones too, are counted as taken up,
  -- and none from there on. It has left its loop exactly when a round found `m_Running` false or
  -- took a null key.
  pub io_worker_reaches :
      (rs : List (Bool × Dequeued)) {y : System}
      → SystemReach mode on_dispatch y
      → AllAnswers mode (rounds rs) y
      → SystemReach mode on_dispatch (record {
        network = (run_io_worker mode rs y.network).0;
        answered = all_took (rounds rs) y.answered;
      })
        × ((run_io_worker mode rs y.network).1 ≡ any_last rs)
  unfolding run_io_worker call
  io_worker_reaches [] r h = (r, refl)
  io_worker_reaches ((false, d) ∷ rs) r h = (r, refl)
  io_worker_reaches ((true, shut_down) ∷ rs) r h = (r, refl)
  io_worker_reaches ((true, failed) ∷ rs) r h = io_worker_reaches rs r h.1
  io_worker_reaches ((true, recv_failed k) ∷ rs) {y} r ((below, open_), h) =
      io_worker_reaches rs (after r (method y k below (Life.recv_failed (life y k) open_) refl)) h
  io_worker_reaches ((true, send_failed k) ∷ rs) {y} r ((below, open_), h) =
      io_worker_reaches rs (after r (method y k below (Life.send_failed (life y k) open_) refl)) h
  io_worker_reaches ((true, recv_done k transferred bytes reply) ∷ rs) {y} r ((below, open_), h) =
      io_worker_reaches rs
        (after r (method y k below (Life.recv (life y k) transferred bytes reply open_) refl)) h
  io_worker_reaches ((true, send_done k transferred reply) ∷ rs) {y} r ((below, open_), h) =
      io_worker_reaches rs
        (after r (method y k below (Life.send (life y k) transferred reply open_) refl)) h
  io_worker_reaches ((true, other k) ∷ rs) r (never, h) = absurd never
