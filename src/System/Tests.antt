-- ===== src/System/Tests.antt =====
-- A server with one session: a connection comes, waits for bytes, is lost, and the session is
-- closed; and the theorems at it.
use rio_network.Base.{
  ℕ, zero, suc, ◌<◌, ◌≡◌, refl, Bool, ◌∷◌, true, false, none, List, [], arith, pos, occurs,
  increment, decrement,
}
use rio_network.Ring.{clear}
use rio_network.Session.{Session, own, iocp, no_reason, pending}
use rio_network.Session.Refs.{
  add_ref, release_ref, disconnect, attach, set_thread_id, close, new_session,
}
use rio_network.Session.Recv.{post_recv}
use rio_network.Session.Process.{Callback}
use rio_network.Session.Counts.{posts, recv_posts, send_posts, proc_posts}
use rio_network.Worker.{on_failed}
use rio_network.Worker.Safety.{all_answered}
use rio_network.Worker.Life.{take_recv, unanswered, receive, recv_failed}
use rio_network.Network.{
  Network, released, running, start, create_session_pool, clear_active, fill_free,
  push_free_session, allocate_session, allocate_from, get_proper_thread_id_and_inc_count,
  min_element, call, add_closing_session, closing_round, closing_thread, release_session,
  dec_session_count_per_thread, wait_for_closed_session,
}
use rio_network.Network.Pool.{IsPool}
use rio_network.System.{
  System, life, moved, SystemStep, method, allocate, IsStartable, SystemReach, begin, after,
}
use rio_network.System.Steps.{Closed}
use rio_network.System.Reuse.{reach-IsPool, free_IsIdle, idle_IsListed, closing_round_IsSafe}
use rio_network.System.Shutdown.{shutdown-ends}
use rio_network.System.Rounds.{all_took, rounds, io_worker_reaches}
use rio_network.Network.Workers.{Dequeued, recv_done, failed, shut_down, send_failed, run_io_worker}

abbrev make : ℕ → Session
make i = new_session iocp 65536 [] [] no_reason 0 i

abbrev unstarted : Network
unstarted = record {
  io_thread_count = 0;
  max_session_count = 1;
  per_thread = λ t. pos 0;
  active = λ k. none;
  free = [];
  session_count = 0;
  closing = [];
  sessions = make;
}

abbrev echo : Session → List ℕ → Callback
echo s p = record { requests = []; throws = false }

startable : IsStartable make 3 2 unstarted
unfolding new_session
startable = record {
  named = λ i. refl;
  fresh = λ i. record { unconnected = refl; no_socket = refl; no_refs = refl; no_effects = refl };
  small = omega arith;
  enough = omega arith;
  some_processor = omega arith;
  unused = refl;
  none_closing = refl;
}

abbrev started : Network
started = elim (start make 3 2 true unstarted) [ running n ↦ n | _ ↦ unstarted ]

started_lem : start make 3 2 true unstarted ≡ running started
unfolding start create_session_pool clear_active fill_free push_free_session new_session
started_lem = refl

abbrev waiting : System
waiting = record { network = started; answered = λ k. unanswered }

abbrev accepted : System
accepted = record waiting { network = (allocate_session 9 true started).0 }

abbrev listening : System
listening =
    moved accepted 0
      (record (life accepted 0) { session = post_recv pending (life accepted 0).session })

abbrev lost : System
lost = moved listening 0 (record {
  session = on_failed (life listening 0).session;
  answered = take_recv (life listening 0);
})

lost-Reach : SystemReach own echo lost
unfolding start create_session_pool clear_active fill_free push_free_session new_session
    allocate_session allocate_from get_proper_thread_id_and_inc_count min_element increment attach
    set_thread_id post_recv call add_closing_session on_failed disconnect release_ref add_ref
    decrement clear
lost-Reach =
    after
      (after (after (begin startable started_lem) (allocate waiting 9 true))
        (method accepted 0 (omega arith) (receive (life accepted 0) pending) refl))
      (method listening 0 (omega arith) (recv_failed (life listening 0) (omega arith)) refl)

listening-Reach : SystemReach own echo listening
unfolding start create_session_pool clear_active fill_free push_free_session new_session
    allocate_session allocate_from get_proper_thread_id_and_inc_count min_element increment attach
    set_thread_id post_recv call add_closing_session add_ref clear
listening-Reach =
    after (after (begin startable started_lem) (allocate waiting 9 true))
      (method accepted 0 (omega arith) (receive (life accepted 0) pending) refl)

-- Bytes come, `GetQueuedCompletionStatus` fails without a session, and the null key comes.
abbrev worker_rounds : List (Bool × Dequeued)
worker_rounds =
    (true, recv_done 0 2 (7 ∷ 8 ∷ []) pending)
    ∷ (true, failed)
    ∷ (true, shut_down)
    ∷ (true, send_failed 0)
    ∷ []

io_worker_reaches_example :
    SystemReach own echo (record {
      network = (run_io_worker own worker_rounds listening.network).0;
      answered = all_took (rounds worker_rounds) listening.answered;
    })
    × ((run_io_worker own worker_rounds listening.network).1 ≡ true)
unfolding start create_session_pool clear_active fill_free push_free_session new_session
    allocate_session allocate_from get_proper_thread_id_and_inc_count min_element increment attach
    set_thread_id post_recv call add_closing_session add_ref clear
io_worker_reaches_example =
    io_worker_reaches worker_rounds listening-Reach ((omega arith, omega arith), (tt, tt))

reach-IsPool_example : IsPool lost.network
reach-IsPool_example = reach-IsPool lost-Reach

abbrev closed : Network
closed = elim (closing_round true lost.network) [ released n ↦ n | _ ↦ lost.network ]

closed_lem : closing_round true lost.network ≡ released closed
unfolding start create_session_pool clear_active fill_free push_free_session new_session
    allocate_session allocate_from get_proper_thread_id_and_inc_count min_element increment attach
    set_thread_id post_recv call add_closing_session on_failed disconnect release_ref add_ref
    decrement clear closing_round release_session dec_session_count_per_thread close
closed_lem = refl

closed-Reach : SystemReach own echo (record lost { network = closed })
closed-Reach = after lost-Reach (SystemStep.close lost true closed_lem)

free_IsIdle_example :
    let s = closed.sessions 0 in
    let a = lost.answered 0 in
    (s.ref_count ≡ pos 0)
    × (s.socket ≡ none)
    × (s.connect ≡ false)
    × (occurs 0 closed.closing ≡ 0)
    × (recv_posts s.out ≡ a.recv)
    × (send_posts s.out ≡ a.send)
    × (proc_posts s.out ≡ a.proc)
unfolding start create_session_pool clear_active fill_free push_free_session new_session
    allocate_session allocate_from get_proper_thread_id_and_inc_count min_element increment attach
    set_thread_id post_recv call add_closing_session on_failed disconnect release_ref add_ref
    decrement clear closing_round release_session dec_session_count_per_thread close
free_IsIdle_example = free_IsIdle closed-Reach 0 (omega arith) refl

idle_IsListed_example : occurs 0 lost.network.closing ≡ 1
unfolding start create_session_pool clear_active fill_free push_free_session new_session
    allocate_session allocate_from get_proper_thread_id_and_inc_count min_element increment attach
    set_thread_id post_recv call add_closing_session on_failed disconnect release_ref add_ref
    decrement clear
idle_IsListed_example = idle_IsListed lost-Reach 0 (omega arith) refl refl refl refl

closing_round_IsSafe_example :
    (k : ℕ) × (rest : List ℕ) × Closed lost.network closed k rest
    × ((lost.network.sessions k).ref_count ≡ pos 0)
    × ((lost.network.sessions k).socket ≡ none)
    × ((lost.network.sessions k).connect ≡ false)
closing_round_IsSafe_example = closing_round_IsSafe lost-Reach true closed_lem

only : (P : ℕ → Type 0) → P 0 → (k : ℕ) → k < lost.network.max_session_count → P k
unfolding start create_session_pool clear_active fill_free push_free_session new_session
    allocate_session allocate_from get_proper_thread_id_and_inc_count min_element increment attach
    set_thread_id post_recv call add_closing_session on_failed disconnect release_ref add_ref
    decrement clear
only P p zero l = p
only P p (suc k) l = absurd (omega arith)

shutdown-ends_example : wait_for_closed_session (closing_thread true 1 lost.network) ≡ true
unfolding start create_session_pool clear_active fill_free push_free_session new_session
    allocate_session allocate_from get_proper_thread_id_and_inc_count min_element increment attach
    set_thread_id post_recv call add_closing_session on_failed disconnect release_ref add_ref
    decrement clear
shutdown-ends_example =
    shutdown-ends true 1 lost-Reach (only (λ k. (lost.network.sessions k).connect ≡ false) refl)
      (only (λ k. (lost.network.sessions k).socket ≡ none) refl)
      (only (λ k. all_answered (lost.answered k) ≡ posts (lost.network.sessions k).out) refl)
      (omega arith)
