-- ===== src/Network/Startup.antt =====
-- `SocketUtils::Startup` of NetLib/NetLib/SocketUtils.cpp, which looks for RIO, and the life of a Network
-- of Network.cpp around it: the constructor, `Start`, `Shutdown` and the destructor.
use rio_network.Base.{
  ℕ, ◌+◌, ◌<◌, ◌≡◌, Bool, true, false, Option, none, some, List, [], ◌∷◌, ◌++◌, arith, ◌==◌,
  if◌then◌else◌,
}
use rio_network.Session.{IoModel, iocp, rio}
use rio_network.Network.Listen.{SocketCall, opened, closed, opens, closes}

abbrev opened_if : Option ℕ → List SocketCall → List SocketCall
opened_if none calls = calls
opened_if (some h) calls = opened h ∷ calls

abbrev closed_if : Option ℕ → List SocketCall → List SocketCall
closed_if none calls = calls
closed_if (some h) calls = closed h ∷ calls

-- What `Startup` leaves: `SupportRIO`, its result, and the calls.
pub record StartupResult : Type 0 where
  pub supports_rio : Bool
  pub result : Bool
  pub calls : List SocketCall

-- Whether `WSAStartup` works, the socket (`none` is INVALID_SOCKET), whether `WSAIoctl` works.
startup : Bool → Option ℕ → Bool → Bool → List SocketCall → StartupResult
startup wsa_starts socket finds_rio supports calls =
    let used = closed_if socket (opened_if socket calls) in
    if wsa_starts
    then (if finds_rio
        then record { supports_rio = true; result = true; calls = used }
        else record { supports_rio = false; result = false; calls = used })
    else record { supports_rio = supports; result = false; calls = calls }

-- The io model that the constructor of Network makes.
io_model_for : Bool → IoModel
io_model_for supports_rio = if supports_rio then rio else iocp

-- On every path `Startup` closes the socket that it opened; and a first `Startup` that fails leaves
-- a Network with the completion port.
startup_lem :
    (wsa_starts : Bool) (socket : Option ℕ) (finds_rio : Bool) (calls : List SocketCall) (h : ℕ)
    → let s = startup wsa_starts socket finds_rio false calls in
      (opens h s.calls + closes h calls ≡ opens h calls + closes h s.calls)
      × (io_model_for s.supports_rio ≡ (if s.result then rio else iocp))
unfolding startup io_model_for
startup_lem wsa_starts none finds_rio calls h = ground arith
startup_lem wsa_starts (some j) finds_rio calls h = ground arith

-- The calls on a Network behind its constructor; the destructor calls `Shutdown` too.
data LifeCall : Type 0 where
  start_call shutdown_call : LifeCall

-- `m_ActiveSessionList[i]` in `Shutdown`: whether the array is there, and `none` where a null pointer
-- is read. With no session the loop does not read it.
shut_down : ℕ → Bool → Option Bool
shut_down max_session_count has_list =
    if has_list then some false else (if max_session_count == 0 then some false else none)

-- Whether the array is there after these calls.
life : ℕ → List LifeCall → Bool → Option Bool
unfolding shut_down
life max_session_count [] has_list = some has_list
life max_session_count (start_call ∷ cs) has_list = life max_session_count cs true
life max_session_count (shutdown_call ∷ cs) has_list = elim (shut_down max_session_count has_list) [
  | none ↦ none
  | some b ↦ life max_session_count cs b
]

-- A Network with sessions that is destroyed after its `Shutdown` reads a null pointer, whatever was
-- called before.
shutdown_twice :
    (max_session_count : ℕ) (cs : List LifeCall) (has_list : Bool)
    → 0 < max_session_count
    → life max_session_count (cs ++ (shutdown_call ∷ shutdown_call ∷ [])) has_list ≡ none
unfolding life shut_down
shutdown_twice max_session_count [] true some_sessions = ground arith
shutdown_twice max_session_count [] false some_sessions = ground arith
shutdown_twice max_session_count (start_call ∷ cs) has_list some_sessions =
    shutdown_twice max_session_count cs true some_sessions
shutdown_twice max_session_count (shutdown_call ∷ cs) true some_sessions =
    shutdown_twice max_session_count cs false some_sessions
shutdown_twice max_session_count (shutdown_call ∷ cs) false some_sessions = ground arith
