-- ===== src/Worker.antt =====
-- NetLib/NetLib/Network.cpp: what the io workers (`RunIOWorker` of both models) and the process
-- workers (`ProcessWorkerThreadEntry`) do with one completion of a session. The worker drops the
-- reference of the completed request when it is done.
pub mod Life
pub mod Sound
pub mod Safety
pub mod Place
pub mod Method
mod Tests
use rio_network.Base.{ℕ, Bool, true, false, Option, none, some, List}
use rio_network.Session.{
  Session, ProcessMode, user, own, Reply, remote_closed, proc_postprocess_error,
}
use rio_network.Session.Refs.{release_ref, disconnect}
use rio_network.Session.Recv.{post_recv, completed_recv}
use rio_network.Session.Send.{completed_send}
use rio_network.Session.Process.{post_process, process_completion, Callback}

-- IOTYPE_RECV
unfoldable pub on_recv : ProcessMode → ℕ → List ℕ → Reply → Session → Session
on_recv user transferred bytes reply s =
    release_ref (post_recv reply (completed_recv transferred bytes s))
on_recv own transferred bytes reply s =
    release_ref (post_recv reply (post_process (completed_recv transferred bytes s)))

-- IOTYPE_SEND
unfoldable pub on_send : ℕ → Reply → Session → Session
on_send transferred reply s = release_ref (completed_send transferred reply s).0

-- A completion that `GetQueuedCompletionStatus` reports as failed.
unfoldable pub on_failed : Session → Session
on_failed s = release_ref (disconnect remote_closed s)

-- IOTYPE_PROCESS
unfoldable pub on_process : (Session → List ℕ → Callback) → ℕ → Session → Option Session
on_process on_dispatch fuel s = elim (process_completion on_dispatch fuel s) [
  | none ↦ none
  | some s' ↦ some (release_ref s')
]

unfoldable pub on_process_failed : Session → Session
on_process_failed s = release_ref (disconnect proc_postprocess_error s)
