-- ===== src/Network/Listen.antt =====
-- The listening socket of Network.cpp: `CreateListenSocket`, `StartAcceptor` and `StopAcceptor`. The
-- calls of Winsock are recorded, newest first, and what they answer is an argument.
use rio_network.Base.{
  ℕ, ◌+◌, ◌≡◌, refl, Bool, true, false, not, ◌&&◌, ◌||◌, Option, none, some, List, [], ◌∷◌, arith,
  ◌==◌, if◌then◌else◌,
}

pub data SocketCall : Type 0 where
  opened closed no_delay_set reuse_set listening : ℕ → SocketCall
  -- a handle, the address and the port
  bound : ℕ → List ℕ → ℕ → SocketCall

-- What Winsock answers: the socket (`none` is INVALID_SOCKET), and whether each call succeeds.
pub record Answers : Type 0 where
  pub socket : Option ℕ
  pub reuses : Bool
  pub sets_no_delay : Bool
  pub binds : Bool
  pub listens : Bool

-- `"0.0.0.0"`
abbrev any_address : List ℕ
any_address = 48 ∷ 46 ∷ 48 ∷ 46 ∷ 48 ∷ 46 ∷ 48 ∷ []

abbrev address_or_any : List ℕ → List ℕ
address_or_any [] = any_address
address_or_any (c ∷ cs) = c ∷ cs

-- The last lines of `CreateListenSocket`, behind a `break`.
abbrev give_up : ℕ → List SocketCall → List SocketCall × Option ℕ
give_up h calls = (closed h ∷ calls, none)

-- `bind` and `listen`
bind_and_listen : List ℕ → ℕ → Answers → ℕ → List SocketCall → List SocketCall × Option ℕ
bind_and_listen address port a h calls =
    let calls' = bound h (address_or_any address) port ∷ calls in
    if a.binds
    then (if a.listens then (listening h ∷ calls', some h) else give_up h (listening h ∷ calls'))
    else give_up h calls'

pub create_listen_socket :
    List ℕ → ℕ → Bool → Answers → List SocketCall → List SocketCall × Option ℕ
create_listen_socket address port no_delay a calls = elim a.socket [
  | none ↦ (calls, none)
  | some h ↦
      let calls' = reuse_set h ∷ opened h ∷ calls in
      if a.reuses
      then (if no_delay
          then (if a.sets_no_delay
              then bind_and_listen address port a h (no_delay_set h ∷ calls')
              else give_up h (no_delay_set h ∷ calls'))
          else bind_and_listen address port a h calls')
      else give_up h calls'
]

-- The members of Network under `Acceptor`, and the calls so far.
pub record Acceptor : Type 0 where
  pub listen_address : List ℕ
  pub listen_port : ℕ
  pub listen_socket : Option ℕ
  -- `m_Acceptor`, a thread
  pub has_thread : Bool
  pub is_running : Bool
  pub calls : List SocketCall

start_acceptor : List ℕ → ℕ → Bool → Answers → Acceptor → Acceptor
start_acceptor address port no_delay a s =
    let named = record s { listen_address = address; listen_port = port } in
    let (calls, socket) = create_listen_socket address port no_delay a s.calls in
    let listens : Acceptor = elim s.listen_socket [
      | none ↦ record named { listen_socket = socket; calls = calls }
      | some h ↦ named
    ] in
    if s.has_thread then listens else record listens { is_running = true; has_thread = true }

-- The join returns: the thread leaves its loop when `accept` fails on the closed socket.
stop_acceptor : Acceptor → Acceptor
stop_acceptor s =
    let off = record s { is_running = false } in
    let closed_off : Acceptor = elim s.listen_socket [
      | none ↦ off
      | some h ↦ record off { listen_socket = none; calls = closed h ∷ s.calls }
    ] in
    record closed_off { has_thread = false }

pub data AcceptorCall : Type 0 where
  start_call : List ℕ → ℕ → Bool → Answers → AcceptorCall
  stop_call : AcceptorCall

pub acceptor_calls : List AcceptorCall → Acceptor → Acceptor
unfolding start_acceptor stop_acceptor
acceptor_calls [] s = s
acceptor_calls (start_call address port no_delay a ∷ cs) s =
    acceptor_calls cs (start_acceptor address port no_delay a s)
acceptor_calls (stop_call ∷ cs) s = acceptor_calls cs (stop_acceptor s)

-- `Network::Network`
abbrev pub no_acceptor : Acceptor
no_acceptor = record {
  listen_address = [];
  listen_port = 0;
  listen_socket = none;
  has_thread = false;
  is_running = false;
  calls = [];
}

-- How often a handle was opened and closed, and whether a member holds it.
abbrev pub opens : ℕ → List SocketCall → ℕ
opens h [] = 0
opens h (opened j ∷ cs) = (if j == h then 1 else 0) + opens h cs
opens h (_ ∷ cs) = opens h cs

abbrev pub closes : ℕ → List SocketCall → ℕ
closes h [] = 0
closes h (closed j ∷ cs) = (if j == h then 1 else 0) + closes h cs
closes h (_ ∷ cs) = closes h cs

abbrev pub holds : ℕ → Option ℕ → ℕ
holds h none = 0
holds h (some j) = if j == h then 1 else 0

create_listen_socket-holds :
    (address : List ℕ) (port : ℕ) (no_delay : Bool) (a : Answers) (calls : List SocketCall) (h : ℕ)
    → let (calls', socket) = create_listen_socket address port no_delay a calls in
      opens h calls' + closes h calls ≡ opens h calls + closes h calls' + holds h socket
unfolding create_listen_socket bind_and_listen
create_listen_socket-holds address port no_delay a calls h = ground arith

abbrev Balanced : ℕ → Acceptor → Type 0
Balanced h s =
    (opens h s.calls ≡ closes h s.calls + holds h s.listen_socket) × (s.has_thread ≡ s.is_running)

start_acceptor-Balanced :
    (address : List ℕ) (port : ℕ) (no_delay : Bool) (a : Answers) (h : ℕ) (s : Acceptor)
    → Balanced h s
    → Balanced h (start_acceptor address port no_delay a s)
unfolding start_acceptor
start_acceptor-Balanced address port no_delay a h s b =
    ground (arith, b, create_listen_socket-holds address port no_delay a s.calls h)

stop_acceptor-Balanced : (h : ℕ) (s : Acceptor) → Balanced h s → Balanced h (stop_acceptor s)
unfolding stop_acceptor
stop_acceptor-Balanced h s b = ground (arith, b)

acceptor_calls-Balanced :
    (cs : List AcceptorCall) (h : ℕ) (s : Acceptor)
    → Balanced h s
    → Balanced h (acceptor_calls cs s)
unfolding acceptor_calls
acceptor_calls-Balanced [] h s b = b
acceptor_calls-Balanced (start_call address port no_delay a ∷ cs) h s b =
    acceptor_calls-Balanced cs h _ (start_acceptor-Balanced address port no_delay a h s b)
acceptor_calls-Balanced (stop_call ∷ cs) h s b =
    acceptor_calls-Balanced cs h _ (stop_acceptor-Balanced h s b)

-- After any calls of `StartAcceptor` and `StopAcceptor` on a new Network, whatever Winsock answers:
-- each socket was opened as often as it was closed, but for the one in `m_ListenSocket`, and there is
-- an accepting thread just when `m_RunningAcceptor` is set. No path leaks a socket or closes it twice.
pub acceptor_calls_balanced :
    (cs : List AcceptorCall) (h : ℕ)
    → let s = acceptor_calls cs no_acceptor in
      (opens h s.calls ≡ closes h s.calls + holds h s.listen_socket) × (s.has_thread ≡ s.is_running)
acceptor_calls_balanced cs h = acceptor_calls-Balanced cs h no_acceptor (refl, refl)

-- `CreateListenSocket` returns the socket that it opened when every call on it succeeds, and
-- otherwise none; the sockets that it opened are those that it closed and the one that it returns.
pub create_listen_socket_lem :
    (address : List ℕ) (port : ℕ) (no_delay : Bool) (a : Answers) (calls : List SocketCall) (h : ℕ)
    → let (calls', socket) = create_listen_socket address port no_delay a calls in
      (socket ≡ (
        if a.reuses && (not no_delay || a.sets_no_delay) && a.binds && a.listens
        then a.socket
        else none))
      × (opens h calls' + closes h calls ≡ opens h calls + closes h calls' + holds h socket)
unfolding create_listen_socket bind_and_listen
create_listen_socket_lem address port no_delay a calls h =
    (outcome a.socket refl, create_listen_socket-holds address port no_delay a calls h)
  where
    outcome :
        (o : Option ℕ)
        → a.socket ≡ o
        → (create_listen_socket address port no_delay a calls).1 ≡ (
            if a.reuses && (not no_delay || a.sets_no_delay) && a.binds && a.listens
            then a.socket
            else none)
    outcome none e = ground (arith, e)
    outcome (some j) e = ground (arith, e)
