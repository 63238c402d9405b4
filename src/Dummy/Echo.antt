-- ===== src/Dummy/Echo.antt =====
-- One packet of a session of the sample server in the packet loop: `UnmarshallRaw` of Session.cpp and
-- `OnDispatch` of DummyServer/DummySession.cpp.
use rio_network.Base.{
  ℕ, ◌+◌, ◌*◌, ◌^◌, ◌<◌, ◌≡◌, refl, sym, ap, subst, ◌∙◌, Bool, true, false, some, List, [], ◌∷◌,
  ◌++◌, append-nil, append_assoc, arith, length, if_both, ◌==◌,
}
use rio_network.Ring.{get_data_length}
use rio_network.Ring.Contents.{IsValid, contents}
use rio_network.Ring.Put.{put_data_refines}
use rio_network.Session.{Session, Reply, is_connected, accepts, dispatched}
use rio_network.Session.Send.{post_send, marshall, flush}
use rio_network.Session.Sending.{marshall_lem}
use rio_network.Session.Process.{Drained, perform_all, perform, dispatch}
use rio_network.Dummy.Packet.{
  ChatMsg, IsChatMsg, encode, decode-encode, id_ask_chat_msg, id_ans_chat_msg, sizeof_chat_msg,
}
use rio_network.Dummy.Server.{
  answer_to, on_dispatch, post_send-contents, post_send-buffer, length-encode, on_dispatch-ask,
}

-- What a send leaves alone.
pub record Keeps (s s' : Session) : Type 0 where
  pub connected : is_connected s' ≡ is_connected s
  pub model : s'.io_model ≡ s.io_model

flush-Keeps :
    (reply : Reply) (s : Session) → accepts s.io_model reply ≡ true → Keeps s (flush reply s).0
unfolding flush
flush-Keeps reply s accepted = record { connected = ground arith; model = ground arith }

marshall-Keeps : (bytes : List ℕ) (len : ℕ) (s : Session) → Keeps s (marshall bytes len s).0
unfolding marshall
marshall-Keeps bytes len s = record { connected = ground arith; model = ground arith }

post_send-Keeps :
    (bytes : List ℕ) (len : ℕ) (reply : Reply) (s : Session)
    → accepts s.io_model reply ≡ true
    → Keeps s (post_send (some bytes) len reply s).0
unfolding post_send
post_send-Keeps bytes len reply s accepted =
    let (s', stored) = marshall bytes len s in
    let k : Keeps s s' = marshall-Keeps bytes len s in
    let f : Keeps s' (flush reply s').0 =
      flush-Keeps reply s' (ap (λ m. accepts m reply) k.model ∙ accepted) in
    if_both (λ (r : Session × Bool). Keeps s r.0) stored
      (if_both (λ (r : Session × Bool). Keeps s r.0) (get_data_length s'.send_buffer == len)
        (record { connected = f.connected ∙ k.connected; model = f.model ∙ k.model }) k)
      k

-- What a send of data that fits leaves.
pub record Sends (bytes : List ℕ) (s s' : Session) : Type 0 where
  pub keeps : Keeps s s'
  pub valid : IsValid s'.send_buffer
  pub held : contents s'.send_buffer ≡ contents s.send_buffer ++ bytes
  pub size : s'.send_buffer.buf_size ≡ s.send_buffer.buf_size

post_send-Sends :
    (bytes : List ℕ) (reply : Reply) (s : Session)
    → is_connected s ≡ true
    → accepts s.io_model reply ≡ true
    → IsValid s.send_buffer
    → length bytes < 2 ^ 31
    → length (contents s.send_buffer) + length bytes < s.send_buffer.buf_size
    → Sends bytes s (post_send (some bytes) (length bytes) reply s).0
post_send-Sends bytes reply s on accepted v small fits =
    let ring =
      post_send-buffer bytes (length bytes) reply s
      ∙ ap (λ (r : Session × Bool). r.0.send_buffer) (marshall_lem s bytes on small) in
    let (valid, e, same) = put_data_refines bytes (length bytes) v (omega arith) in
    record {
      keeps = post_send-Keeps bytes (length bytes) reply s accepted;
      valid = subst IsValid (sym ring) valid;
      held = post_send-contents bytes reply s on v small fits;
      size = ap (λ r. r.buf_size) ring ∙ same;
    }

module _ (behind : List ℕ) (reply : Reply) where
  -- The packet loop hands one question to the callback.
  dispatch-Sends :
      (m : ChatMsg) (s : Session)
      → IsChatMsg m
      → is_connected s ≡ true
      → accepts s.io_model reply ≡ true
      → IsValid s.send_buffer
      → length (contents s.send_buffer) + sizeof_chat_msg < s.send_buffer.buf_size
      → Sends
          (encode id_ans_chat_msg m)
          s
          (dispatch (on_dispatch behind reply) (encode id_ask_chat_msg m) s).0
  unfolding dispatch perform_all perform
  dispatch-Sends m s k on accepted v room =
      let s' : Session = record s { out = dispatched (encode id_ask_chat_msg m) ∷ s.out } in
      let bytes = encode id_ans_chat_msg m in
      let size : length bytes ≡ sizeof_chat_msg = length-encode id_ans_chat_msg m k in
      let sent =
        post_send-Sends bytes reply s' on accepted v (omega (arith, size))
          (omega (arith, size, room)) in
      let same : (post_send (some bytes) (length bytes) reply s').0
          ≡ perform_all (on_dispatch behind reply s' (encode id_ask_chat_msg m)).requests s' =
        ap (λ n. (post_send (some bytes) n reply s').0) size
        ∙ sym (ap (λ rs. perform_all rs s') (on_dispatch-ask behind reply s' m k)) in
      subst (λ x. Sends bytes s x) same
        (record {
          keeps = record { connected = sent.keeps.connected; model = sent.keeps.model };
          valid = sent.valid;
          held = sent.held;
          size = sent.size;
        })

-- A packet that holds a whole question, and a list of such.
unfoldable pub IsQuestion : List ℕ → Type 0
IsQuestion p = (m : ChatMsg) × IsChatMsg m × (p ≡ encode id_ask_chat_msg m)

abbrev pub AllQuestions : List (List ℕ) → Type 0
AllQuestions [] = Unit {0}
AllQuestions (p ∷ ps) = IsQuestion p × AllQuestions ps

-- The answers to these packets, one behind the other.
abbrev pub answers : List (List ℕ) → List ℕ
answers [] = []
answers (p ∷ ps) = answer_to p ++ answers ps

pub answers-append : (ps qs : List (List ℕ)) → answers (ps ++ qs) ≡ answers ps ++ answers qs
answers-append [] qs = refl
answers-append (p ∷ ps) qs =
    ap (λ l. answer_to p ++ l) (answers-append ps qs)
    ∙ sym (append_assoc (answer_to p) (answers ps) (answers qs))

pub AllQuestions-append :
    (ps qs : List (List ℕ)) → AllQuestions (ps ++ qs) → AllQuestions ps × AllQuestions qs
AllQuestions-append [] qs h = (tt, h)
AllQuestions-append (p ∷ ps) qs h =
    let (front, back) = AllQuestions-append ps qs h.1 in ((h.0, front), back)

-- A session that can take the answers to `count` questions.
pub record Ready (reply : Reply) (count : ℕ) (s : Session) : Type 0 where
  pub on : is_connected s ≡ true
  pub accepted : accepts s.io_model reply ≡ true
  pub recv : IsValid s.recv_buffer
  pub send : IsValid s.send_buffer
  pub room : length (contents s.send_buffer) + sizeof_chat_msg * count < s.send_buffer.buf_size

module _ (behind : List ℕ) (reply : Reply) where
  pub returns : (s : Session) (p : List ℕ) → (on_dispatch behind reply s p).throws ≡ false
  unfolding on_dispatch
  returns s p = refl

  -- The packet loop hands one question to the callback.
  pub question-Sends :
      (p : List ℕ) (s : Session)
      → IsQuestion p
      → is_connected s ≡ true
      → accepts s.io_model reply ≡ true
      → IsValid s.send_buffer
      → length (contents s.send_buffer) + sizeof_chat_msg < s.send_buffer.buf_size
      → Sends (answer_to p) s (dispatch (on_dispatch behind reply) p s).0
        × (length (answer_to p) ≡ sizeof_chat_msg)
  unfolding IsQuestion answer_to
  question-Sends p s (m, k, e) on accepted v room =
      let reads : encode id_ans_chat_msg m ≡ answer_to p =
        ap (encode id_ans_chat_msg) (sym (decode-encode id_ask_chat_msg m [] k))
        ∙ ap answer_to (append-nil (encode id_ask_chat_msg m) ∙ sym e) in
      (
        subst (λ a. Sends a s (dispatch (on_dispatch behind reply) p s).0) reads
            (subst
              (λ q. Sends (encode id_ans_chat_msg m) s (dispatch (on_dispatch behind reply) q s).0)
              (sym e) (dispatch-Sends behind reply m s k on accepted v room)),
        ap length (sym reads) ∙ length-encode id_ans_chat_msg m k,
      )

  -- What the packet loop leaves of a session whose receive buffer held the questions `ps`.
  pub record Served (ps : List (List ℕ)) (rest : List ℕ) (s : Session) (d : Drained) : Type 0 where
    pub sends : contents d.session.send_buffer ≡ contents s.send_buffer ++ answers ps
    pub left : contents d.session.recv_buffer ≡ rest
    pub no_error : d.has_error ≡ false
    pub ready : Ready reply 0 d.session
    pub send_size : d.session.send_buffer.buf_size ≡ s.send_buffer.buf_size
    pub recv_size : d.session.recv_buffer.buf_size ≡ s.recv_buffer.buf_size
