-- ===== src/Network/Workers.antt =====
-- The loops of the threads of Network.cpp on the pool: the accepting thread (`AcceptThread`), the io
-- workers (`RunIOWorker` of both models) and the process workers (`ProcessWorkerThreadEntry`). A
-- round is a test of the thread's flag and what the call that it waits in answers; a list of rounds
-- is what one thread does, and the flag beside the result says that it left its loop.
use rio_network.Base.{ℕ, Bool, true, false, Option, none, some, List, [], ◌∷◌}
use rio_network.Session.{Session, ProcessMode, Reply}
use rio_network.Session.Refs.{release_ref}
use rio_network.Session.Process.{Request, Callback}
use rio_network.Worker.{on_recv, on_send, on_failed, on_process, on_process_failed}
use rio_network.Network.{Network, call}
use rio_network.Network.Pool.{IsPool}
use rio_network.Network.Traffic.{accept_session, RioResult, handle_results, accept_session-IsPool}

-- What `accept` answers, and then what belongs to that socket.
pub data Accepted : Type 0 where
  refused : Accepted
  accepted :
      (handle : ℕ) (created : Bool) (ip : List ℕ) (port : ℕ) (on_accept : List Request)
      (reply : Reply)
      → Accepted

pub accept_thread : List (Bool × Accepted) → Network → Network × Bool
accept_thread [] n = (n, false)
accept_thread ((false, a) ∷ rs) n = (n, true)
accept_thread ((true, refused) ∷ rs) n = accept_thread rs n
accept_thread ((true, accepted handle created ip port on_accept reply) ∷ rs) n =
    accept_thread rs (accept_session handle created ip port on_accept reply n).0

-- What `DequeueIO` gives: a failure without or with a session and the request that failed, the null
-- key of `Shutdown`, or a completion of a session, the last with an io type that the switch does not
-- know.
pub data Dequeued : Type 0 where
  failed : Dequeued
  recv_failed send_failed : ℕ → Dequeued
  shut_down : Dequeued
  recv_done : ℕ → ℕ → List ℕ → Reply → Dequeued
  send_done : ℕ → ℕ → Reply → Dequeued
  other : ℕ → Dequeued

-- `NetworkIOModel_IOCP::RunIOWorker`
unfoldable pub run_io_worker : ProcessMode → List (Bool × Dequeued) → Network → Network × Bool
run_io_worker mode [] n = (n, false)
run_io_worker mode ((false, d) ∷ rs) n = (n, true)
run_io_worker mode ((true, failed) ∷ rs) n = run_io_worker mode rs n
run_io_worker mode ((true, recv_failed k) ∷ rs) n = run_io_worker mode rs (call on_failed k n)
run_io_worker mode ((true, send_failed k) ∷ rs) n = run_io_worker mode rs (call on_failed k n)
run_io_worker mode ((true, shut_down) ∷ rs) n = (n, true)
run_io_worker mode ((true, recv_done k transferred bytes reply) ∷ rs) n =
    run_io_worker mode rs (call (on_recv mode transferred bytes reply) k n)
run_io_worker mode ((true, send_done k transferred reply) ∷ rs) n =
    run_io_worker mode rs (call (on_send transferred reply) k n)
run_io_worker mode ((true, other k) ∷ rs) n = run_io_worker mode rs (call release_ref k n)

-- What `RIODequeueCompletion` gives: nothing, RIO_CORRUPT_CQ, or results.
pub data RioDequeued : Type 0 where
  none_yet corrupt : RioDequeued
  results : List RioResult → RioDequeued

-- `NetworkIOModel_RIO::RunIOWorker`
unfoldable pub run_rio_worker : ProcessMode → List (Bool × RioDequeued) → Network → Network × Bool
run_rio_worker mode [] n = (n, false)
run_rio_worker mode ((false, d) ∷ rs) n = (n, true)
run_rio_worker mode ((true, none_yet) ∷ rs) n = run_rio_worker mode rs n
run_rio_worker mode ((true, corrupt) ∷ rs) n = (n, true)
run_rio_worker mode ((true, results l) ∷ rs) n = run_rio_worker mode rs (handle_results mode l n)

-- What `DequeueProcess` gives.
pub data ProcessDequeued : Type 0 where
  process_failed : Option ℕ → ProcessDequeued
  process_shut_down : ProcessDequeued
  process_ready process_other : ℕ → ProcessDequeued

-- The case of IOTYPE_PROCESS; `none` is a packet loop that has not ended when the fuel has.
unfoldable pub process_ready_session :
    (Session → List ℕ → Callback) → ℕ → ℕ → Network → Option Network
process_ready_session on_dispatch fuel k n = elim (on_process on_dispatch fuel (n.sessions k)) [
  | none ↦ none
  | some s ↦ some (call (λ _. s) k n)
]

-- `ProcessWorkerThreadEntry`
unfoldable pub run_process_worker :
    (Session → List ℕ → Callback)
    → ℕ
    → List (Bool × ProcessDequeued)
    → Network
    → Option (Network × Bool)
run_process_worker on_dispatch fuel [] n = some (n, false)
run_process_worker on_dispatch fuel ((false, d) ∷ rs) n = some (n, true)
run_process_worker on_dispatch fuel ((true, process_failed none) ∷ rs) n =
    run_process_worker on_dispatch fuel rs n
run_process_worker on_dispatch fuel ((true, process_failed (some k)) ∷ rs) n =
    run_process_worker on_dispatch fuel rs (call on_process_failed k n)
run_process_worker on_dispatch fuel ((true, process_shut_down) ∷ rs) n = some (n, true)
run_process_worker on_dispatch fuel ((true, process_ready k) ∷ rs) n =
    elim (process_ready_session on_dispatch fuel k n) [
      | none ↦ none
      | some n' ↦ run_process_worker on_dispatch fuel rs n'
    ]
run_process_worker on_dispatch fuel ((true, process_other k) ∷ rs) n =
    run_process_worker on_dispatch fuel rs (call release_ref k n)

-- The accepting thread keeps a sound pool sound, whatever it accepts and whatever the callbacks call.
pub accept_thread-IsPool :
    (rs : List (Bool × Accepted)) {n : Network} → IsPool n → IsPool (accept_thread rs n).0
unfolding accept_thread
accept_thread-IsPool [] v = v
accept_thread-IsPool ((false, a) ∷ rs) v = v
accept_thread-IsPool ((true, refused) ∷ rs) v = accept_thread-IsPool rs v
accept_thread-IsPool ((true, accepted handle created ip port on_accept reply) ∷ rs) v =
    accept_thread-IsPool rs (accept_session-IsPool handle created ip port on_accept reply v)
