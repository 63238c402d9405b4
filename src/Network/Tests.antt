-- ===== src/Network/Tests.antt =====
-- A small server of Network.cpp, and the theorems at it.
use rio_network.Base.{
  ℕ, suc, ◌≡◌, refl, sym, ap, true, false, none, some, [], ◌∷◌, ◌++◌, List, arith, pos, total-zero,
  inl, if◌then◌else◌, Bool, ltb, occurs, ◌+◌,
}
use rio_network.Session.{pending, Session, iocp, no_reason}
use rio_network.Session.Refs.{new_session, close}
use rio_network.Network.{
  Network, running, hung, start, allocate_session, allocate_from,
  get_proper_thread_id_and_inc_count, release_session,
}
use rio_network.Network.Pool.{IsPool}
use rio_network.Network.Allocate.{allocate_session-IsPool, Allocated, allocate_session_lem}
use rio_network.Network.Release.{release_session-IsPool}
use rio_network.Network.Create.{start-IsPool, start-hung}
use rio_network.Network.Workers.{Accepted, refused, accepted, accept_thread, accept_thread-IsPool}
use rio_network.Network.Destroy.{destroy_session_pool, destroy_session_pool_once}
use rio_network.Network.Listen.{
  Answers, create_listen_socket, AcceptorCall, start_call, stop_call, acceptor_calls, no_acceptor,
  opens, closes, holds, acceptor_calls_balanced, create_listen_socket_lem,
}
use rio_network.Session.Process.{hang_up}

abbrev make : ℕ → Session
make i = new_session iocp 65536 [] [] no_reason 0 i

abbrev unstarted : ℕ → Network
unstarted count = record {
  io_thread_count = 0;
  max_session_count = count;
  per_thread = λ t. pos 0;
  active = λ k. none;
  free = [];
  session_count = 0;
  closing = [];
  sessions = make;
}

named : (i : ℕ) → (make i).id ≡ i
unfolding new_session
named i = refl

start-IsPool_example :
    (n' : Network) × (start make 3 4 true (unstarted 2) ≡ running n')
    × IsPool n'
    × (n'.session_count ≡ 0)
start-IsPool_example =
    start-IsPool make 3 4 (unstarted 2) named (omega arith) (omega arith) (omega arith) refl

start-hung_example : start make 1000000 4 true (unstarted 65536) ≡ hung
start-hung_example = start-hung make 1000000 4 (unstarted 65536) (omega arith)

-- Two sessions, none active, and two threads.
abbrev idle : Network
idle = record (unstarted 2) { io_thread_count = 2; free = 0 ∷ 1 ∷ [] }

idle-IsPool : IsPool idle
unfolding new_session
idle-IsPool = record {
  small = omega arith;
  threads = omega arith;
  named = λ k l. refl;
  slots = λ k l. inl (refl, ground arith);
  inside = λ k l. ground arith;
  placed = λ k l. inl refl;
  counted = sym (total-zero 2 (λ k. 0) (λ k l. refl));
  loads = λ t l. ap pos (sym (total-zero 2 (λ k. 0) (λ k l. refl)));
}

-- Its first session is active.
abbrev busy : Network
busy = (allocate_session 9 true idle).0

busy-IsPool : IsPool busy
busy-IsPool = allocate_session-IsPool 9 true idle-IsPool

active-busy : busy.active 0 ≡ some 0
unfolding allocate_session allocate_from get_proper_thread_id_and_inc_count new_session
active-busy = refl

max-busy : busy.max_session_count ≡ 2
unfolding allocate_session allocate_from get_proper_thread_id_and_inc_count
max-busy = refl

allocate_session_lem_example : Allocated 9 true idle (allocate_session 9 true idle)
allocate_session_lem_example = allocate_session_lem 9 true idle-IsPool

release_session-IsPool_example :
    let n' = release_session 0 busy in
    IsPool n'
    × (n'.active 0 ≡ none)
    × (n'.free ≡ busy.free ++ (0 ∷ []))
    × (suc n'.session_count ≡ busy.session_count)
    × (n'.sessions 0 ≡ close (busy.sessions 0))
release_session-IsPool_example =
    release_session-IsPool busy-IsPool (omega (arith, max-busy)) active-busy

-- An `accept` that fails, a connection that hangs up at once, and the end of the thread.
abbrev accepts : List (Bool × Accepted)
accepts =
    (true, refused)
    ∷ (true, accepted 9 true (1 ∷ []) 80 (hang_up ∷ []) pending)
    ∷ (false, refused)
    ∷ []

accept_thread-IsPool_example : IsPool (accept_thread accepts busy).0
accept_thread-IsPool_example = accept_thread-IsPool accepts busy-IsPool

destroy_session_pool_once_example :
    occurs 0 (destroy_session_pool busy).0 ≡ (if ltb 0 busy.max_session_count then 1 else 0)
destroy_session_pool_once_example = destroy_session_pool_once busy-IsPool 0

-- The first call cannot listen, the second can.
abbrev answers : Bool → Answers
answers listens = record {
  socket = some 5;
  reuses = true;
  sets_no_delay = true;
  binds = true;
  listens = listens;
}

abbrev acceptor_run : List AcceptorCall
acceptor_run =
    start_call [] 80 true (answers false)
    ∷ start_call [] 80 true (answers true)
    ∷ stop_call
    ∷ stop_call
    ∷ []

acceptor_calls_balanced_example :
    let s = acceptor_calls acceptor_run no_acceptor in
    (opens 5 s.calls ≡ closes 5 s.calls + holds 5 s.listen_socket) × (s.has_thread ≡ s.is_running)
acceptor_calls_balanced_example = acceptor_calls_balanced acceptor_run 5

create_listen_socket_lem_example :
    let (calls, socket) = create_listen_socket [] 80 true (answers true) [] in
    (socket ≡ some 5) × (opens 5 calls + 0 ≡ 0 + closes 5 calls + holds 5 socket)
create_listen_socket_lem_example = create_listen_socket_lem [] 80 true (answers true) [] 5
