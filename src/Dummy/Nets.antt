-- ===== src/Dummy/Nets.antt =====
-- NetLibExample/DummyServer/DummyServer.cpp: the map of the connected sessions. A session is the
-- number of its object, `no_of` the member `m_No` of each; `std::map` is the list of its pairs in
-- the order of their keys.
use rio_network.Base.{
  ℕ, suc, Bool, true, false, Option, none, some, List, [], ◌∷◌, ltb, ◌==◌, if◌then◌else◌, update,
}

abbrev pub NetMap : Type 0
NetMap = List (ℕ × ℕ)

-- `insert`; the flag is false when the key was there.
unfoldable pub map_insert : ℕ → ℕ → NetMap → NetMap × Bool
map_insert key net [] = ((key, net) ∷ [], true)
map_insert key net ((k, v) ∷ l) =
    let (rest, done) = map_insert key net l in
    if k == key
    then ((k, v) ∷ l, false)
    else (if ltb key k then ((key, net) ∷ (k, v) ∷ l, true) else ((k, v) ∷ rest, done))

unfoldable pub map_find : ℕ → NetMap → Option ℕ
map_find key [] = none
map_find key ((k, v) ∷ l) = let rest = map_find key l in if k == key then some v else rest

unfoldable pub map_erase : ℕ → NetMap → NetMap
map_erase key [] = []
map_erase key ((k, v) ∷ l) = let rest = map_erase key l in if k == key then l else (k, v) ∷ rest

pub record DummyServer : Type 0 where
  pub max_no : ℕ
  pub map_net : NetMap
  pub no_of : ℕ → ℕ

-- `DummyServer::DummyServer`
abbrev pub new_server : DummyServer
new_server = record { max_no = 0; map_net = []; no_of = λ s. 0 }

unfoldable pub add_net : ℕ → DummyServer → DummyServer × Bool
add_net net d =
    let number = suc d.max_no in
    let (map_net, done) = map_insert number net d.map_net in
    (record { max_no = number; map_net = map_net; no_of = update d.no_of net number }, done)

unfoldable pub remove_net : ℕ → DummyServer → DummyServer × Bool
remove_net net d = elim (map_find (d.no_of net) d.map_net) [
  | none ↦ (d, true)
  | some _ ↦ (record d { map_net = map_erase (d.no_of net) d.map_net }, true)
]

unfoldable pub get_player_net : ℕ → DummyServer → Option ℕ
get_player_net number d = map_find number d.map_net

-- The sessions that `Broadcast` sends to (and `Check` looks at), in order.
unfoldable pub receivers : NetMap → List ℕ
receivers [] = []
receivers ((k, v) ∷ l) = v ∷ receivers l

unfoldable pub broadcast : DummyServer → List ℕ
unfolding receivers
broadcast d = receivers d.map_net

-- The callbacks `OnAccept` and `OnClose` of the sessions.
pub data NetEvent : Type 0 where
  on_accept on_close : ℕ → NetEvent

unfoldable pub run_events : List NetEvent → DummyServer → DummyServer
run_events [] d = d
run_events (on_accept k ∷ es) d = run_events es (add_net k d).0
run_events (on_close k ∷ es) d = run_events es (remove_net k d).0
