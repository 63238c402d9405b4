-- ===== src/Dummy/Server.antt =====
-- NetLibExample/DummyServer/DummySession.cpp: the session of the sample server, as the callbacks that
-- class Session calls. `behind` is the memory that follows the packet in the buffer of
-- `ProcessCompletion`.
use rio_network.Base.{
  ℕ, ◌+◌, ◌^◌, ◌≤◌, ◌<◌, ◌≡◌, refl, sym, ap, ◌∙◌, Bool, true, false, some, List, [], ◌∷◌, ◌++◌,
  arith, ◌==◌, if◌then◌else◌, length, take, take_all, length-append, length-take, take-append_of_le,
  if_both,
}
use rio_network.Fifo
use rio_network.Ring.{get_data_length}
use rio_network.Ring.Contents.{IsValid, contents}
use rio_network.Ring.Put.{put_data_refines}
use rio_network.Session.{Session, Reply, is_connected, dispatched}
use rio_network.Session.Send.{post_send, marshall}
use rio_network.Session.Sending.{marshall_lem, flush-buffer}
use rio_network.Session.Process.{Callback, send, perform_all, perform, dispatch}
use rio_network.Dummy.Packet.{
  ChatMsg, IsChatMsg, encode, decode, decode-encode, packet_id, id_ask_chat_msg, id_ans_chat_msg,
  sizeof_chat_msg, int_bytes,
}

-- `ChatMsg`: the packet that it sends.
unfoldable pub answer_to : List ℕ → List ℕ
answer_to bytes = encode id_ans_chat_msg (decode bytes)

-- `OnDispatch`; the reply is what the system answers to the send.
unfoldable pub on_dispatch : List ℕ → Reply → Session → List ℕ → Callback
unfolding answer_to
on_dispatch behind reply s packet = record {
  requests =
      if packet_id (packet ++ behind) == id_ask_chat_msg
      then send (some (answer_to (packet ++ behind))) sizeof_chat_msg reply ∷ []
      else [];
  throws = false;
}

pub post_send-buffer :
    (bytes : List ℕ) (len : ℕ) (reply : Reply) (s : Session)
    → (post_send (some bytes) len reply s).0.send_buffer ≡ (marshall bytes len s).0.send_buffer
unfolding post_send
post_send-buffer bytes len reply s =
    let (s', stored) = marshall bytes len s in
    if_both (λ (r : Session × Bool). r.0.send_buffer ≡ s'.send_buffer) stored
      (if_both (λ (r : Session × Bool). r.0.send_buffer ≡ s'.send_buffer)
        (get_data_length s'.send_buffer == len) (flush-buffer reply s') refl)
      refl

-- `PostSend` of data that fits into the send buffer of a connected session.
pub post_send-contents :
    (bytes : List ℕ) (reply : Reply) (s : Session)
    → is_connected s ≡ true
    → IsValid s.send_buffer
    → length bytes < 2 ^ 31
    → length (contents s.send_buffer) + length bytes < s.send_buffer.buf_size
    → contents (post_send (some bytes) (length bytes) reply s).0.send_buffer
      ≡ contents s.send_buffer ++ bytes
unfolding Fifo.put
post_send-contents bytes reply s on v small fits =
    let (valid, e, same) = put_data_refines bytes (length bytes) v (omega arith) in
    let all : take (length bytes) bytes ≡ bytes = take_all (length bytes) bytes (omega arith) in
    ap contents (post_send-buffer bytes (length bytes) reply s)
    ∙ ap (λ (r : Session × Bool). contents r.0.send_buffer) (marshall_lem s bytes on small)
    ∙ ap (λ (r : List ℕ × Bool). r.0) e
    ∙ ground (arith, all, fits)

pub length-encode : (id : ℕ) (m : ChatMsg) → IsChatMsg m → length (encode id m) ≡ sizeof_chat_msg
unfolding encode
length-encode id m k = omega (arith, length-append m.message (int_bytes m.no), k.full)

packet_id-encode : (id : ℕ) (m : ChatMsg) (behind : List ℕ) → packet_id (encode id m ++ behind) ≡ id
unfolding encode
packet_id-encode id m behind = refl

-- What the callback asks for when a whole `ask_chat_msg` comes.
pub on_dispatch-ask :
    (behind : List ℕ) (reply : Reply) (s : Session) (m : ChatMsg)
    → IsChatMsg m
    → (on_dispatch behind reply s (encode id_ask_chat_msg m)).requests
      ≡ send (some (encode id_ans_chat_msg m)) sizeof_chat_msg reply ∷ []
unfolding on_dispatch answer_to
on_dispatch-ask behind reply s m k =
    ap
      (λ id.
        if id == id_ask_chat_msg
        then send (some (answer_to (encode id_ask_chat_msg m ++ behind))) sizeof_chat_msg reply ∷ []
        else [])
      (packet_id-encode id_ask_chat_msg m behind)
    ∙ ap (λ x. send (some (encode id_ans_chat_msg x)) sizeof_chat_msg reply ∷ [])
        (decode-encode id_ask_chat_msg m behind k)

-- An `ask_chat_msg` that class Session hands to the sample server is answered with an
-- `ans_chat_msg` of the same text and number, which goes behind what the send buffer holds, whatever
-- the system answers to the send. The session is connected, its send buffer is valid and has room.
pub ask_answered :
    (behind : List ℕ) (reply : Reply) (s : Session) (m : ChatMsg)
    → IsChatMsg m
    → is_connected s ≡ true
    → IsValid s.send_buffer
    → length (contents s.send_buffer) + sizeof_chat_msg < s.send_buffer.buf_size
    → contents (dispatch (on_dispatch behind reply) (encode id_ask_chat_msg m) s).0.send_buffer
      ≡ contents s.send_buffer ++ encode id_ans_chat_msg m
unfolding dispatch perform_all perform
ask_answered behind reply s m k on v room =
    let s' : Session = record s { out = dispatched (encode id_ask_chat_msg m) ∷ s.out } in
    let size : length (encode id_ans_chat_msg m) ≡ sizeof_chat_msg =
      length-encode id_ans_chat_msg m k in
    ap (λ rs. contents (perform_all rs s').send_buffer) (on_dispatch-ask behind reply s' m k)
    ∙ ap (λ n. contents (post_send (some (encode id_ans_chat_msg m)) n reply s').0.send_buffer)
        (sym size)
    ∙ post_send-contents (encode id_ans_chat_msg m) reply s' on v (omega (arith, size))
        (omega (arith, size, room))

-- `ChatMsg` does not look at the size of the packet: one of three bytes with the id of a question is
-- answered with the 100 bytes of memory that follow it.
pub answer_to_short :
    (behind : List ℕ)
    → 100 ≤ length behind
    → (decode (answer_to (3 ∷ 0 ∷ id_ask_chat_msg ∷ behind))).message ≡ take 100 behind
unfolding answer_to encode decode
answer_to_short behind h =
    let size : length (take 100 behind) ≡ 100 = omega (arith, length-take 100 behind, h) in
    take-append_of_le 100 (take 100 behind) _ (omega (arith, size))
    ∙ take_all 100 (take 100 behind) (omega (arith, size))
