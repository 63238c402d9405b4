-- ===== src/Dummy/Client.antt =====
-- NetLibExample/DummyClient/DummyClient.cpp: the session of the sample client. What it sends is
-- returned; `bytes` is the memory from the packet on, and `asserts` says that no NET_ASSERT has failed.
use rio_network.Base.{
  ℕ, zero, suc, ◌+◌, ◌%◌, ◌^◌, Bool, true, false, ◌||◌, ◌&&◌, Option, none, some, List, [], ◌∷◌,
  ◌++◌, ltb, ◌==◌, if◌then◌else◌, ◌≤◌, ◌≡◌, refl, arith, length, Option-cases, inl, inr,
}
use rio_network.Dummy.Packet.{
  chat_msg, encode, decode, packet_id, id_ask_chat_msg, id_ans_chat_msg, id_ans_chat_msg1,
}

pub record DummySession : Type 0 where
  pub connect : Bool
  -- `int`s, as bit patterns
  pub no_ : ℕ
  pub seq : ℕ
  pub asserts : Bool

-- `DummySession::DummySession`
abbrev pub new_client : DummySession
new_client = record { connect = true; no_ = 0; seq = 0; asserts = true }

abbrev pub next_int : ℕ → ℕ
next_int n = (n + 1) % 2 ^ 32

-- The digits 0 to 9 eight times, the final 0, and what `strcpy_s` leaves of the array: the release
-- library leaves the rest as it was, `rest`.
abbrev digits : List ℕ
digits = 48 ∷ 49 ∷ 50 ∷ 51 ∷ 52 ∷ 53 ∷ 54 ∷ 55 ∷ 56 ∷ 57 ∷ []

abbrev pub text : List ℕ → List ℕ
text rest =
    digits ++ digits ++ digits ++ digits ++ digits ++ digits ++ digits ++ digits ++ (0 ∷ rest)

-- The `ask_chat_msg` with the next number, of `OnConnect` and `ResChatMsg`.
unfoldable pub ask : List ℕ → DummySession → DummySession × List ℕ
ask rest s =
    let number = next_int s.no_ in
    (record s { no_ = number }, encode id_ask_chat_msg (chat_msg (text rest) number))

unfoldable pub on_connect : List ℕ → DummySession → DummySession × List ℕ
unfolding ask
on_connect rest s = let (s', packet) = ask rest s in (record s' { seq = 0 }, packet)

abbrev pub on_close : DummySession → DummySession
on_close s = record s { connect = false }

unfoldable pub res_chat_msg : List ℕ → List ℕ → DummySession → DummySession × List ℕ
unfolding ask
res_chat_msg rest bytes s =
    ask rest (record s { asserts = s.asserts && ((decode bytes).no == s.no_) })

unfoldable pub res_chat_msg1 : List ℕ → DummySession → DummySession
res_chat_msg1 bytes s =
    let number = (decode bytes).no in
    let checked = (s.seq == 0) || (next_int s.seq == number) in
    record s { seq = number; asserts = s.asserts && checked }

-- The entries of `m_ProcessFunc`, an array of ten.
pub data ProcessFunc : Type 0 where
  no_func res_chat res_chat1 beyond : ProcessFunc

unfoldable pub process_func : ℕ → ProcessFunc
process_func id =
    if ltb id 10
    then (if id == id_ans_chat_msg
        then res_chat
        else (if id == id_ans_chat_msg1 then res_chat1 else no_func))
    else beyond

-- The call through the array, with the packets that it sends; `none` is a read past its end.
unfoldable pub call_func :
    List ℕ → List ℕ → DummySession → ProcessFunc → Option (DummySession × List (List ℕ))
call_func rest bytes s no_func = some (s, [])
call_func rest bytes s res_chat =
    let (s', packet) = res_chat_msg rest bytes s in some (s', packet ∷ [])
call_func rest bytes s res_chat1 = some (res_chat_msg1 bytes s, [])
call_func rest bytes s beyond = none

-- `OnDispatch`
unfoldable pub on_dispatch : List ℕ → List ℕ → DummySession → Option (DummySession × List (List ℕ))
unfolding call_func
on_dispatch rest bytes s = call_func rest bytes s (process_func (packet_id bytes))

-- `DummyClient::Connect` makes `left` sessions; what `ConnectSession` gives each time is an argument.
-- The result has the ids in the order of the calls.
unfoldable pub connect_all : ℕ → (ℕ → Option ℕ) → ℕ → List ℕ × Bool
connect_all zero answer i = ([], true)
connect_all (suc left) answer i = elim (answer i) [
  | none ↦ ([], false)
  | some id ↦ let (ids, done) = connect_all left answer (i + 1) in (id ∷ ids, done)
]

-- `Connect`
pub connect : (ℕ → Option ℕ) → List ℕ × Bool
connect answer = connect_all 500 answer 0

-- A packet whose id is not below ten makes `OnDispatch` read behind its array.
beyond_lem :
    (rest bytes : List ℕ) (s : DummySession)
    → 10 ≤ packet_id bytes
    → on_dispatch rest bytes s ≡ none
unfolding on_dispatch call_func process_func
beyond_lem rest bytes s h = ground (arith, h)

-- `Connect` answers true just when every call gave a session.
connect_all_lem :
    (left : ℕ) (answer : ℕ → Option ℕ) (i : ℕ)
    → (connect_all left answer i).1 ≡ true
    → length (connect_all left answer i).0 ≡ left
unfolding connect_all
connect_all_lem zero answer i e = refl
connect_all_lem (suc left) answer i e = elim (Option-cases (answer i)) [
  | inl none_given ↦ absurd (ground (arith, none_given, e))
  | inr (id, given) ↦ ground (arith, given, e, connect_all_lem left answer (i + 1))
]
