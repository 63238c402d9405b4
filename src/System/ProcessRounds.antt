-- ===== src/System/ProcessRounds.antt =====
-- `ProcessWorkerThreadEntry` of NetLib/NetLib/Network.cpp in a running Network: the rounds of a process
-- worker, each with a completion that answers a request of a session.
use rio_network.Base.{
  ℕ, ◌+◌, ◌<◌, ◌≡◌, refl, subst, Bool, true, false, Option, none, some, List, [], ◌∷◌, update,
}
use rio_network.Session.{Session, ProcessMode}
use rio_network.Session.Counts.{Answered, proc_posts}
use rio_network.Session.Process.{Callback}
use rio_network.Worker.{on_process, on_process_failed}
use rio_network.Worker.Life
use rio_network.Network.{Network, call}
use rio_network.Network.Workers.{
  ProcessDequeued, process_failed, process_shut_down, process_ready, process_other,
  process_ready_session, run_process_worker,
}
use rio_network.System.{System, life, SystemReach, method, after}

-- There is a process request of this session that no worker has taken up.
abbrev IsOpen : System → ℕ → Type 0
IsOpen y k =
    (k < y.network.max_session_count)
    × ((y.answered k).proc < proc_posts (y.network.sessions k).out)

abbrev took : ℕ → (ℕ → Answered) → ℕ → Answered
took k a = update a k (record (a k) { proc = (a k).proc + 1 })

-- The requests of the rounds before the worker leaves its loop, taken up.
abbrev all_took : List (Bool × ProcessDequeued) → (ℕ → Answered) → ℕ → Answered
all_took [] a = a
all_took ((false, d) ∷ rs) a = a
all_took ((true, process_failed none) ∷ rs) a = all_took rs a
all_took ((true, process_failed (some k)) ∷ rs) a = all_took rs (took k a)
all_took ((true, process_shut_down) ∷ rs) a = a
all_took ((true, process_ready k) ∷ rs) a = all_took rs (took k a)
all_took ((true, process_other k) ∷ rs) a = all_took rs a

-- Every completion answers an open request when its round comes.
abbrev AllOpen : (Session → List ℕ → Callback) → ℕ → List (Bool × ProcessDequeued) → System → Type 0
AllOpen on_dispatch fuel [] y = Unit
AllOpen on_dispatch fuel ((false, d) ∷ rs) y = Unit
AllOpen on_dispatch fuel ((true, process_failed none) ∷ rs) y = AllOpen on_dispatch fuel rs y
AllOpen on_dispatch fuel ((true, process_failed (some k)) ∷ rs) y =
    IsOpen y k
    × AllOpen on_dispatch fuel rs
        (record { network = call on_process_failed k y.network; answered = took k y.answered })
AllOpen on_dispatch fuel ((true, process_shut_down) ∷ rs) y = Unit
AllOpen on_dispatch fuel ((true, process_ready k) ∷ rs) y =
    IsOpen y k
    × ((n : Network)
        → process_ready_session on_dispatch fuel k y.network ≡ some n
        → AllOpen on_dispatch fuel rs (record { network = n; answered = took k y.answered }))
AllOpen on_dispatch fuel ((true, process_other k) ∷ rs) y = ⊥

module _ {mode : ProcessMode} {on_dispatch : Session → List ℕ → Callback} where
  -- The session behind a `ProcessCompletion` that ended.
  ready_lem :
      (fuel k : ℕ) {y : System} {n : Network}
      → IsOpen y k
      → process_ready_session on_dispatch fuel k y.network ≡ some n
      → SystemReach mode on_dispatch y
      → SystemReach mode on_dispatch (record { network = n; answered = took k y.answered })
  unfolding process_ready_session
  ready_lem fuel k {y} {n} (below, open_) e r =
      go (on_process on_dispatch fuel (y.network.sessions k)) refl
    where
      go :
          (o : Option Session)
          → on_process on_dispatch fuel (y.network.sessions k) ≡ o
          → SystemReach mode on_dispatch (record { network = n; answered = took k y.answered })
      go none h = absurd (cc (h, e))
      go (some s) h =
          subst
            (λ x.
              SystemReach mode on_dispatch (record { network = x; answered = took k y.answered }))
            (cc (h, e)) (after r (method y k below (Life.proc (life y k) fuel open_ h) refl))

  -- A process worker whose completions are answers to accepted requests, and whose packet loops end,
  -- makes steps of the running Network only: it leaves a state that can be reached, with the requests
  -- of its rounds, the failed ones too, counted as taken up.
  process_worker_reaches :
      (fuel : ℕ) (rs : List (Bool × ProcessDequeued)) {y : System} {o : Network × Bool}
      → SystemReach mode on_dispatch y
      → AllOpen on_dispatch fuel rs y
      → run_process_worker on_dispatch fuel rs y.network ≡ some o
      → SystemReach mode on_dispatch (record { network = o.0; answered = all_took rs y.answered })
  unfolding run_process_worker call
  process_worker_reaches fuel [] {y} r h e =
      subst (λ x. SystemReach mode on_dispatch (record { network = x; answered = y.answered }))
        (cc e) r
  process_worker_reaches fuel ((false, d) ∷ rs) {y} r h e =
      subst (λ x. SystemReach mode on_dispatch (record { network = x; answered = y.answered }))
        (cc e) r
  process_worker_reaches fuel ((true, process_failed none) ∷ rs) r h e =
      process_worker_reaches fuel rs r h e
  process_worker_reaches fuel ((true, process_failed (some k)) ∷ rs) {y} r ((below, open_), h) e =
      process_worker_reaches fuel rs
        (after r (method y k below (Life.proc_failed (life y k) open_) refl)) h e
  process_worker_reaches fuel ((true, process_shut_down) ∷ rs) {y} r h e =
      subst (λ x. SystemReach mode on_dispatch (record { network = x; answered = y.answered }))
        (cc e) r
  process_worker_reaches fuel ((true, process_ready k) ∷ rs) {y} {o} r (open_, h) e =
      go (process_ready_session on_dispatch fuel k y.network) refl (λ n.
        process_worker_reaches fuel rs {y = record { network = n; answered = took k y.answered }})
    where
      go :
          (m : Option Network)
          → process_ready_session on_dispatch fuel k y.network ≡ m
          → ((n : Network)
              → SystemReach mode on_dispatch (record { network = n; answered = took k y.answered })
              → AllOpen on_dispatch fuel rs (record { network = n; answered = took k y.answered })
              → run_process_worker on_dispatch fuel rs n ≡ some o
              → SystemReach mode on_dispatch
                  (record { network = o.0; answered = all_took rs (took k y.answered) }))
          → SystemReach mode on_dispatch
              (record { network = o.0; answered = all_took rs (took k y.answered) })
      go none q rest = absurd (cc (q, e))
      go (some n) q rest = rest n (ready_lem fuel k open_ q r) (h n q) (cc (q, e))
  process_worker_reaches fuel ((true, process_other k) ∷ rs) r never e = absurd never
