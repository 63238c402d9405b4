-- ===== src/Dummy/Tests.antt =====
-- The sample programs of NetLibExample on concrete packets and schedules.
use rio_network.Base.{
  ℕ, zero, suc, ◌+◌, ◌≡◌, refl, ap, true, false, some, none, List, [], ◌∷◌, ◌++◌, arith, length,
  pos, take, drop, if◌then◌else◌, occurs, count_flag,
}
use rio_network.Ring.{Ring, get_data_length}
use rio_network.Ring.Contents.{IsValid, contents}
use rio_network.Session.{Session, iocp, no_reason, pending}
use rio_network.Dummy.Packet.{
  ChatMsg, chat_msg, IsChatMsg, encode, encode-IsPacket, id_ask_chat_msg, id_ans_chat_msg,
}
use rio_network.Dummy.Server.{on_dispatch}
use rio_network.Dummy.Serve.{packets_of, serve_stream}
use rio_network.Session.Frames.{frame, Framed, Framed-concat, concat}
use rio_network.Session.Stream.{receive_all, Pieces}
use rio_network.Dummy.Nets.{
  NetEvent, on_accept, on_close, run_events, new_server, broadcast, get_player_net,
}
use rio_network.Dummy.Members.{nobody, connected, broadcast-connected}
use rio_network.Dummy.Chat.{Chat, ChatReach, begin, after, tick, serve}
use rio_network.Dummy.Client.{on_connect}
use rio_network.Dummy.PingPong.{count_id}
use rio_network.Dummy.Talk.{chat_sound}

abbrev copies : ℕ → List ℕ
copies zero = []
copies (suc n) = 7 ∷ copies n

abbrev hello : ChatMsg
hello = chat_msg (copies 100) 5

hello-IsChatMsg : IsChatMsg hello
hello-IsChatMsg = record { full = refl; small = omega arith }

-- A send buffer of 256 bytes with nothing in it.
abbrev sends : Ring
sends = record { buffer = copies 256; buf_size = 256; head_pos = 0; tail_pos = 0 }

sends-IsValid : IsValid sends
sends-IsValid = omega arith

contents-sends : contents sends ≡ []
unfolding contents get_data_length
contents-sends = refl

abbrev session : Session
session = record {
  id = 0;
  io_model = iocp;
  connect = true;
  socket = some 5;
  reason = no_reason;
  recv_buffer = sends;
  send_buffer = sends;
  thread_id = 0;
  peer_ip = [];
  peer_port = 0;
  target_ip = [];
  target_port = 0;
  ref_count = pos 1;
  recv_pending = false;
  send_pending = false;
  proc_pending = false;
  out = [];
}

-- A receive buffer as large as the code makes it, with nothing in it.
abbrev receives : Ring
receives = record { buffer = copies 131072; buf_size = 131072; head_pos = 0; tail_pos = 0 }

length-copies : (n : ℕ) → length (copies n) ≡ n
length-copies zero = refl
length-copies (suc n) = ap suc (length-copies n)

receives-IsValid : IsValid receives
receives-IsValid = omega (arith, length-copies 131072)

contents-receives : contents receives ≡ []
unfolding contents get_data_length
contents-receives = refl

-- A question in two pieces, the second with the first byte of another packet.
abbrev question : List ℕ
question = encode id_ask_chat_msg hello

abbrev pieces : List (List ℕ)
pieces = take 50 question ∷ (drop 50 question ++ (9 ∷ [])) ∷ []

pieces-Pieces : Pieces 60 pieces
unfolding encode
pieces-Pieces = (omega arith, omega arith, (omega arith, omega arith, tt))

frame_empty : frame (contents receives) ≡ none
unfolding frame
frame_empty = rw contents-receives refl

frame_one : frame (9 ∷ []) ≡ none
unfolding frame
frame_one = refl

Framed-pieces :
    Framed (contents receives ++ concat pieces) (packets_of id_ask_chat_msg (hello ∷ [])) (9 ∷ [])
unfolding encode
Framed-pieces = rw contents-receives (
    Framed-concat (question ∷ []) (9 ∷ [])
      (encode-IsPacket id_ask_chat_msg hello hello-IsChatMsg, tt) frame_one)

abbrev fresh : Session
fresh = record session { recv_buffer = receives }

serve_stream_example :
    (s' : Session) × (receive_all (on_dispatch [] pending) 2 pieces fresh ≡ some s')
    × (contents s'.send_buffer ≡ contents sends ++ concat (packets_of id_ans_chat_msg (hello ∷ [])))
    × (contents s'.recv_buffer ≡ 9 ∷ [])
serve_stream_example =
    serve_stream [] pending 2 60 pieces fresh (hello ∷ []) receives-IsValid sends-IsValid refl refl
      (omega arith) (omega (arith, ap length contents-sends)) frame_empty pieces-Pieces
      (hello-IsChatMsg, tt) Framed-pieces (omega arith)

-- Session 4 comes, 2 comes, 4 goes and comes again.
abbrev visits : List NetEvent
visits = on_accept 4 ∷ on_accept 2 ∷ on_close 4 ∷ on_accept 4 ∷ []

broadcast-connected_example :
    (occurs 4 (broadcast (run_events visits new_server)) ≡ count_flag (connected visits nobody 4))
    × (get_player_net ((run_events visits new_server).no_of 4) (run_events visits new_server)
        ≡ (if connected visits nobody 4 then some 4 else none))
broadcast-connected_example = broadcast-connected visits 4 (refl, (refl, (refl, tt)))

-- The server broadcasts once and then takes the first question.
talking : (y : Chat) × ChatReach (copies 100) (copies 19) 8 y
unfolding encode on_connect
talking = (_, after (after begin tick) (serve refl refl))

chat_sound_example :
    (talking.0.client.asserts ≡ true)
    × (length talking.0.to_server + count_id id_ans_chat_msg talking.0.to_client ≡ 1)
chat_sound_example = chat_sound refl refl (omega arith) talking.1
