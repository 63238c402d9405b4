-- ===== src/Network.antt =====
-- NetLib/NetLib/Network.cpp and Network.h: the pool of sessions of class Network. The sessions are
-- made once, and a pointer to one is the number it was made with. Each function runs under
-- m_SessionListLock (or m_ClosingSessionListLock) in the code and is one step here.
pub mod Least
pub mod Pool
pub mod Allocate
pub mod Release
pub mod Create
pub mod Wait
pub mod Traffic
pub mod Workers
pub mod Destroy
mod Startup
pub mod Listen
mod Tests
use rio_network.Base.{
  ℕ, zero, suc, ◌+◌, ◌-◌, ◌%◌, ◌^◌, Bool, true, false, Option, none, some, List, [], ◌∷◌, ◌++◌, ltb,
  leb, ◌==◌, if◌then◌else◌, ℤ, pos, negsuc, increment, decrement, update,
}
use rio_network.Session.{Session, host_closed}
use rio_network.Session as Session
use rio_network.Session.Counts.{closings}
use rio_network.Session.Refs.{attach, close, set_thread_id, disconnect}

pub record Network : Type 0 where
  pub io_thread_count : ℕ
  pub max_session_count : ℕ
  -- `m_SessionCountPerThread`, an array of `io_thread_count` ints
  pub per_thread : ℕ → ℤ
  -- `m_ActiveSessionList`, an array of `max_session_count` pointers
  pub active : ℕ → Option ℕ
  pub free : List ℕ
  pub session_count : ℕ
  pub closing : List ℕ
  -- the objects behind the pointers
  pub sessions : ℕ → Session

abbrev pub less : ℤ → ℤ → Bool
less (pos a) (pos b) = ltb a b
less (pos a) (negsuc b) = false
less (negsuc a) (pos b) = true
less (negsuc a) (negsuc b) = ltb b a

-- `std::min_element` of the first `n`: the first of the least ones, as an index.
unfoldable pub min_element : (ℕ → ℤ) → ℕ → ℕ
min_element f zero = 0
min_element f (suc zero) = 0
min_element f (suc (suc n)) =
    let best = min_element f (suc n) in if less (f (suc n)) (f best) then suc n else best

-- `GetProperThreadIDAndIncCount()` and `DecSessionCountPerThread(Session)`
unfoldable pub get_proper_thread_id_and_inc_count : Network → Network × ℕ
unfolding increment
get_proper_thread_id_and_inc_count n =
    let thread = min_element n.per_thread n.io_thread_count in
    (record n { per_thread = update n.per_thread thread (increment (n.per_thread thread)) }, thread)

unfoldable pub dec_session_count_per_thread : ℕ → Network → Network
unfolding decrement
dec_session_count_per_thread k n =
    let thread = (n.sessions k).thread_id in
    record n { per_thread = update n.per_thread thread (decrement (n.per_thread thread)) }

-- What `AllocateSession` does with this free list.
unfoldable pub allocate_from : ℕ → Bool → List ℕ → Network → Network × Option ℕ
allocate_from handle created [] n = (n, none)
allocate_from handle created (k ∷ rest) n =
    let listed = record n { free = rest; active = update n.active (n.sessions k).id (some k) } in
    let (counted, thread) = get_proper_thread_id_and_inc_count listed in
    (
      record counted {
        sessions =
            update n.sessions k (attach handle created (set_thread_id thread (n.sessions k)));
        session_count = (n.session_count + 1) % 2 ^ 16;
      },
      some k,
    )

unfoldable pub allocate_session : ℕ → Bool → Network → Network × Option ℕ
allocate_session handle created n = allocate_from handle created n.free n

-- `m_ActiveSessionList[...] == Session`
abbrev pub points_to : Option ℕ → ℕ → Bool
points_to none k = false
points_to (some j) k = j == k

unfoldable pub release_session : ℕ → Network → Network
release_session k n =
    let closed = record n { sessions = update n.sessions k (close (n.sessions k)) } in
    let id = (closed.sessions k).id in
    if points_to (n.active id) k
    then dec_session_count_per_thread k (record closed {
      active = update n.active id none;
      free = n.free ++ (k ∷ []);
      session_count = (n.session_count + (2 ^ 16 - 1)) % 2 ^ 16;
    })
    else closed

unfoldable pub add_closing_session : ℕ → Network → Network
add_closing_session k n = record n { closing = n.closing ++ (k ∷ []) }

-- One round of `ClosingThreadEntry`: it waits, ends, or releases the first session of its list.
pub data ClosingRound : Type 0 where
  waits ended : ClosingRound
  released : Network → ClosingRound

unfoldable pub closing_round : Bool → Network → ClosingRound
closing_round running n = elim n.closing [
  | [] ↦ if running then waits else ended
  | k ∷ rest ↦ released (release_session k (record n { closing = rest }))
]

-- `ClosingThreadEntry` while it has work, for at most `fuel` rounds.
unfoldable pub closing_thread : Bool → ℕ → Network → Network
closing_thread running zero n = n
closing_thread running (suc fuel) n = elim (closing_round running n) [
  | released next ↦ closing_thread running fuel next
  | _ ↦ n
]

unfoldable pub push_free_session : ℕ → Network → Network
push_free_session k n = record n { free = n.free ++ (k ∷ []) }

-- The two loops of `CreateSessionPool` over `unsigned short i`; `none` is a loop that has not ended
-- when the fuel has. `make` is the callback `CreateFunction` and the constructor of Session.
unfoldable pub clear_active : ℕ → ℕ → Network → Option Network
clear_active zero i n = none
clear_active (suc fuel) i n =
    let next =
      clear_active fuel ((i + 1) % 2 ^ 16) (record n { active = update n.active i none }) in
    if ltb i n.max_session_count then next else some n

unfoldable pub fill_free : (ℕ → Session) → ℕ → ℕ → Network → Option Network
unfolding push_free_session
fill_free make zero i n = none
fill_free make (suc fuel) i n =
    let made = record n { sessions = update n.sessions i (make i) } in
    let next = fill_free make fuel ((i + 1) % 2 ^ 16) (push_free_session i made) in
    if ltb i n.max_session_count then next else some n

unfoldable pub create_session_pool : (ℕ → Session) → ℕ → Network → Option Network
create_session_pool make fuel n = elim (clear_active fuel 0 (record n { session_count = 0 })) [
  | none ↦ none
  | some cleared ↦ fill_free make fuel 0 cleared
]

-- `Start`, up to the start of the threads: `hung` when a loop has not ended, `threw` when the io
-- model does not start. A count of 0 stands for the number of processors.
pub data Started : Type 0 where
  hung threw : Started
  running : Network → Started

unfoldable pub start : (ℕ → Session) → ℕ → ℕ → Bool → Network → Started
start make fuel processors io_started n =
    let threads = if n.io_thread_count == 0 then processors else n.io_thread_count in
    elim (create_session_pool make fuel (record n { io_thread_count = threads })) [
      | none ↦ hung
      | some made ↦ if io_started then running (record made { per_thread = λ t. pos 0 }) else threw
    ]

-- `WaitForClosedSession()`: the slots from `i`, `left` of them.
unfoldable pub all_closed : (ℕ → Option ℕ) → ℕ → ℕ → Bool
all_closed active zero i = true
all_closed active (suc left) i =
    let rest = all_closed active left (i + 1) in elim (active i) [ none ↦ rest | some k ↦ false ]

unfoldable pub wait_for_closed_session : Network → Bool
wait_for_closed_session n = all_closed n.active n.max_session_count 0

unfoldable pub is_connected : ℕ → Network → Bool
is_connected index n =
    if leb n.max_session_count index
    then false
    else elim (n.active index) [ none ↦ false | some k ↦ Session.is_connected (n.sessions k) ]

unfoldable pub get_session : ℕ → Network → Option ℕ
get_session id n = if ltb id n.max_session_count then n.active id else none

-- A method of a session, which may put it on the closing list (`Session::ReleaseRef`).
unfoldable pub call : (Session → Session) → ℕ → Network → Network
unfolding add_closing_session
call method k n =
    let s = n.sessions k in
    let called = record n { sessions = update n.sessions k (method s) } in
    if ltb (closings s.out) (closings (method s).out) then add_closing_session k called else called

-- The loop of `Shutdown` that disconnects every session: the slots from `i`, `left` of them.
unfoldable pub disconnect_all : ℕ → ℕ → Network → Network
unfolding call
disconnect_all zero i n = n
disconnect_all (suc left) i n =
    disconnect_all left (i + 1)
      (elim (n.active i) [ none ↦ n | some k ↦ call (disconnect host_closed) k n ])

-- The conversion of an `int` to an `unsigned short`.
abbrev pub to_ushort : ℤ → ℕ
to_ushort (pos m) = m % 2 ^ 16
to_ushort (negsuc m) = 2 ^ 16 - 1 - m % 2 ^ 16

-- `DisconnectSession(int)`
unfoldable pub disconnect_session : ℤ → Network → Network
unfolding call
disconnect_session id n = elim (get_session (to_ushort id) n) [
  | none ↦ n
  | some k ↦ call (disconnect host_closed) k n
]
