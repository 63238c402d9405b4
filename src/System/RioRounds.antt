-- ===== src/System/RioRounds.antt =====
-- `RunIOWorker` of NetLib/NetLib/Network.cpp (RIO) in a running Network: batches of results, each of
-- which answers a request of a session.
use rio_network.Base.{
  ℕ, ◌+◌, ◌<◌, ◌≡◌, refl, sym, subst, ◌∙◌, Bool, true, false, List, [], ◌∷◌, ◌++◌, update,
}
use rio_network.Session.{Session, ProcessMode}
use rio_network.Session.Counts.{Answered, recv_posts, send_posts}
use rio_network.Session.Process.{Callback}
use rio_network.Worker.Life
use rio_network.Network.{Network, call}
use rio_network.Network.Traffic.{RioResult, received, sent, unknown, handle_results}
use rio_network.Network.Workers.{RioDequeued, none_yet, corrupt, results, run_rio_worker}
use rio_network.System.{System, life, SystemReach, method, after}

-- The result answers a request that the system accepted and that no worker has taken up.
abbrev IsResult : System → RioResult → Type 0
IsResult y (received k transferred bytes reply) =
    (k < y.network.max_session_count)
    × ((y.answered k).recv < recv_posts (y.network.sessions k).out)
IsResult y (sent k transferred reply) =
    (k < y.network.max_session_count)
    × ((y.answered k).send < send_posts (y.network.sessions k).out)
IsResult y (unknown k) = ⊥

abbrev took : RioResult → (ℕ → Answered) → ℕ → Answered
took (received k _ _ _) a = update a k (record (a k) { recv = (a k).recv + 1 })
took (sent k _ _) a = update a k (record (a k) { send = (a k).send + 1 })
took (unknown k) a = a

abbrev all_took : List RioResult → (ℕ → Answered) → ℕ → Answered
all_took [] a = a
all_took (x ∷ xs) a = all_took xs (took x a)

-- Every result is an answer when it is its turn.
abbrev AllResults : ProcessMode → List RioResult → System → Type 0
AllResults mode [] y = Unit
AllResults mode (x ∷ xs) y =
    IsResult y x
    × AllResults mode xs
        (record { network = handle_results mode (x ∷ []) y.network; answered = took x y.answered })

-- All results of the rounds before the worker leaves its loop.
abbrev all_results : List (Bool × RioDequeued) → List RioResult
all_results [] = []
all_results ((false, d) ∷ rs) = []
all_results ((true, none_yet) ∷ rs) = all_results rs
all_results ((true, corrupt) ∷ rs) = []
all_results ((true, results l) ∷ rs) = l ++ all_results rs

handle_results-append :
    (mode : ProcessMode) (xs ys : List RioResult) (n : Network)
    → handle_results mode (xs ++ ys) n ≡ handle_results mode ys (handle_results mode xs n)
unfolding handle_results
handle_results-append mode [] ys n = refl
handle_results-append mode (received k transferred bytes reply ∷ xs) ys n =
    handle_results-append mode xs ys _
handle_results-append mode (sent k transferred reply ∷ xs) ys n = handle_results-append mode xs ys _
handle_results-append mode (unknown k ∷ xs) ys n = handle_results-append mode xs ys _

run_rio_worker_lem :
    (mode : ProcessMode) (rs : List (Bool × RioDequeued)) (n : Network)
    → (run_rio_worker mode rs n).0 ≡ handle_results mode (all_results rs) n
unfolding run_rio_worker handle_results
run_rio_worker_lem mode [] n = refl
run_rio_worker_lem mode ((false, d) ∷ rs) n = refl
run_rio_worker_lem mode ((true, none_yet) ∷ rs) n = run_rio_worker_lem mode rs n
run_rio_worker_lem mode ((true, corrupt) ∷ rs) n = refl
run_rio_worker_lem mode ((true, results l) ∷ rs) n =
    run_rio_worker_lem mode rs (handle_results mode l n)
    ∙ sym (handle_results-append mode l (all_results rs) n)

module _ {mode : ProcessMode} {on_dispatch : Session → List ℕ → Callback} where
  results_reach :
      (xs : List RioResult) {y : System}
      → SystemReach mode on_dispatch y
      → AllResults mode xs y
      → SystemReach mode on_dispatch
          (record { network = handle_results mode xs y.network; answered = all_took xs y.answered })
  unfolding handle_results call
  results_reach [] r h = r
  results_reach (received k transferred bytes reply ∷ xs) {y} r ((below, open_), h) =
      results_reach xs
        (after r (method y k below (Life.recv (life y k) transferred bytes reply open_) refl)) h
  results_reach (sent k transferred reply ∷ xs) {y} r ((below, open_), h) =
      results_reach xs
        (after r (method y k below (Life.send (life y k) transferred reply open_) refl)) h
  results_reach (unknown k ∷ xs) r (never, h) = absurd never

  -- An RIO worker whose results are answers to accepted requests makes steps of the running Network
  -- only: it leaves a state that can be reached, with the requests of all results before the end of
  -- its loop taken up, and no other.
  rio_worker_reaches :
      (rs : List (Bool × RioDequeued)) {y : System}
      → SystemReach mode on_dispatch y
      → AllResults mode (all_results rs) y
      → SystemReach mode on_dispatch (record {
        network = (run_rio_worker mode rs y.network).0;
        answered = all_took (all_results rs) y.answered;
      })
  rio_worker_reaches rs {y} r h =
      subst
        (λ n.
          SystemReach mode on_dispatch
            (record { network = n; answered = all_took (all_results rs) y.answered }))
        (sym (run_rio_worker_lem mode rs y.network)) (results_reach (all_results rs) r h)
