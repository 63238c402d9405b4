-- ===== src/Dummy/Chat.antt =====
-- The sample client and the sample server of NetLibExample over one connection: the questions and
-- answers between them, and the packets that the loop of DummyServer/main.cpp broadcasts. The
-- connection delivers packets whole, once and in order.
use rio_network.Base.{ℕ, ◌≡◌, ◌≢◌, some, List, [], ◌∷◌, ◌++◌}
use rio_network.Dummy.Packet.{chat_msg, encode, packet_id, id_ask_chat_msg, id_ans_chat_msg1}
use rio_network.Dummy.Server.{answer_to}
use rio_network.Dummy.Client.{DummySession, new_client, next_int, on_connect, on_dispatch}

pub record Chat : Type 0 where
  pub client : DummySession
  -- what is on its way, oldest first
  pub to_server : List (List ℕ)
  pub to_client : List (List ℕ)
  -- `Seq` of `main`: the number of the next broadcast
  pub seq : ℕ
  -- the text that the server broadcasts, and the end of the client's text
  pub news : List ℕ
  pub rest : List ℕ

pub data ChatStep (y : Chat) : Chat → Type 0 where
  -- the server takes a packet: `OnDispatch`, `ChatMsg`
  serve :
      {p : List ℕ} {ps : List (List ℕ)}
      → y.to_server ≡ p ∷ ps
      → packet_id p ≡ id_ask_chat_msg
      → ChatStep y (record y { to_server = ps; to_client = y.to_client ++ (answer_to p ∷ []) })
  ignore :
      {p : List ℕ} {ps : List (List ℕ)}
      → y.to_server ≡ p ∷ ps
      → packet_id p ≢ id_ask_chat_msg
      → ChatStep y (record y { to_server = ps })
  -- the client takes a packet
  react :
      {p : List ℕ} {ps qs : List (List ℕ)} {s : DummySession}
      → y.to_client ≡ p ∷ ps
      → on_dispatch y.rest p y.client ≡ some (s, qs)
      → ChatStep y (record y { client = s; to_client = ps; to_server = y.to_server ++ qs })
  -- a round of the loop of `main`
  tick : ChatStep y (record y {
    to_client = y.to_client ++ (encode id_ans_chat_msg1 (chat_msg y.news y.seq) ∷ []);
    seq = next_int y.seq;
  })

-- The connection when `OnConnect` is through; the server counts `seq` already.
abbrev pub opened : List ℕ → List ℕ → ℕ → Chat
opened news rest seq =
    let (s, packet) = on_connect rest new_client in
    record {
      client = s;
      to_server = packet ∷ [];
      to_client = [];
      seq = seq;
      news = news;
      rest = rest;
    }

pub data ChatReach (news rest : List ℕ) (seq : ℕ) : Chat → Type 0 where
  begin : ChatReach news rest seq (opened news rest seq)
  after : {y y' : Chat} → ChatReach news rest seq y → ChatStep y y' → ChatReach news rest seq y'
