-- ===== src/Dummy/PingPong.antt =====
-- What is on its way between the sample client and the sample server of NetLibExample.
use rio_network.Base.{
  ℕ, ◌+◌, ◌^◌, ◌<◌, ◌≡◌, refl, sym, ap, ◌∙◌, ◌⊎◌, inl, inr, true, ◌&&◌, ◌||◌, Option, some, List,
  [], ◌∷◌, ◌++◌, append-nil, arith, ◌==◌, if◌then◌else◌, length,
}
use rio_network.Dummy.Packet.{
  chat_msg, encode, decode, decode-encode, packet_id, id_ask_chat_msg, id_ans_chat_msg,
  id_ans_chat_msg1,
}
use rio_network.Dummy.Server.{answer_to}
use rio_network.Dummy.Client.{
  DummySession, next_int, text, ask, res_chat_msg, res_chat_msg1, res_chat, res_chat1, process_func,
  call_func, on_dispatch,
}

-- The broadcasts from the one after `last` up to before `next`; a client that has seen none yet
-- (or the number 0) takes any.
abbrev pub Ticks : ℕ → List ℕ → ℕ → Type 0
Ticks last [] next_no = (last ≡ 0) ⊎ (next_int last ≡ next_no)
Ticks last (n ∷ ns) next_no = ((last ≡ 0) ⊎ (next_int last ≡ n)) × (n < 2 ^ 32) × Ticks n ns next_no

pub Ticks-append :
    (last : ℕ) (ns : List ℕ) (n : ℕ)
    → n < 2 ^ 32
    → Ticks last ns n
    → Ticks last (ns ++ (n ∷ [])) (next_int n)
Ticks-append last [] n small t = (t, small, inr refl)
Ticks-append last (m ∷ ns) n small t = (t.0, t.1, Ticks-append m ns n small t.2)

abbrev pub news_packets : List ℕ → List ℕ → List (List ℕ)
news_packets news [] = []
news_packets news (n ∷ ns) = encode id_ans_chat_msg1 (chat_msg news n) ∷ news_packets news ns

pub news_packets-append :
    (news ns : List ℕ) (n : ℕ)
    → news_packets news (ns ++ (n ∷ []))
      ≡ news_packets news ns ++ (encode id_ans_chat_msg1 (chat_msg news n) ∷ [])
news_packets-append news [] n = refl
news_packets-append news (m ∷ ns) n =
    ap (◌∷◌ (encode id_ans_chat_msg1 (chat_msg news m))) (news_packets-append news ns n)

-- The packets with this id.
abbrev pub count_id : ℕ → List (List ℕ) → ℕ
count_id id [] = 0
count_id id (p ∷ ps) = (if packet_id p == id then 1 else 0) + count_id id ps

pub packet_id-encode :
    (id : ℕ) (text : List ℕ) (n : ℕ) → packet_id (encode id (chat_msg text n)) ≡ id
unfolding encode
packet_id-encode id text n = refl

decode_whole :
    (id : ℕ) (text : List ℕ) (n : ℕ)
    → length text ≡ 100
    → n < 2 ^ 32
    → decode (encode id (chat_msg text n)) ≡ chat_msg text n
decode_whole id text n full small =
    ap decode (sym (append-nil (encode id (chat_msg text n))))
    ∙ decode-encode id (chat_msg text n) [] (record { full = full; small = small })

pub answer_to_ask :
    (text : List ℕ) (n : ℕ)
    → length text ≡ 100
    → n < 2 ^ 32
    → answer_to (encode id_ask_chat_msg (chat_msg text n))
      ≡ encode id_ans_chat_msg (chat_msg text n)
unfolding answer_to
answer_to_ask text n full small =
    ap (encode id_ans_chat_msg) (decode_whole id_ask_chat_msg text n full small)

abbrev call_result : DummySession × List ℕ → Option (DummySession × List (List ℕ))
call_result r = some (r.0, r.1 ∷ [])

-- What the client does with an answer that carries its number.
pub react_answer :
    (rest : List ℕ) (s : DummySession)
    → length (text rest) ≡ 100
    → s.no_ < 2 ^ 32
    → s.asserts ≡ true
    → on_dispatch rest (encode id_ans_chat_msg (chat_msg (text rest) s.no_)) s
      ≡ some (
        record s { no_ = next_int s.no_ },
        encode id_ask_chat_msg (chat_msg (text rest) (next_int s.no_)) ∷ [],
      )
unfolding on_dispatch call_func process_func res_chat_msg ask
react_answer rest s full small sound =
    let packet = encode id_ans_chat_msg (chat_msg (text rest) s.no_) in
    let read = ap (λ m. m.no) (decode_whole id_ans_chat_msg (text rest) s.no_ full small) in
    let fine : (s.asserts && ((decode packet).no == s.no_)) ≡ s.asserts =
      ground (arith, read, sound) in
    ap (call_func rest packet s) {x = process_func (packet_id packet)} {y = res_chat}
      (ap process_func (packet_id-encode id_ans_chat_msg (text rest) s.no_))
    ∙ ap (λ b. call_result (ask rest (record s { asserts = b }))) fine

-- What the client does with the broadcast that follows its last one.
pub react_news :
    (rest news : List ℕ) (n : ℕ) (s : DummySession)
    → length news ≡ 100
    → n < 2 ^ 32
    → s.asserts ≡ true
    → (s.seq ≡ 0) ⊎ (next_int s.seq ≡ n)
    → on_dispatch rest (encode id_ans_chat_msg1 (chat_msg news n)) s
      ≡ some (record s { seq = n }, [])
unfolding on_dispatch call_func process_func res_chat_msg1
react_news rest news n s full small sound follows =
    let packet = encode id_ans_chat_msg1 (chat_msg news n) in
    let read : (decode packet).no ≡ n =
      ap (λ m. m.no) (decode_whole id_ans_chat_msg1 news n full small) in
    let fine : (s.asserts && ((s.seq == 0) || (next_int s.seq == (decode packet).no))) ≡ s.asserts =
      elim follows [
        | inl first ↦ ground (arith, first, sound)
        | inr next_one ↦ ground (arith, next_one, read, sound)
      ] in
    ap (call_func rest packet s) {x = process_func (packet_id packet)} {y = res_chat1}
      (ap process_func (packet_id-encode id_ans_chat_msg1 news n))
    ∙ ap (λ b. some (record s { seq = (decode packet).no; asserts = b }, [])) fine
    ∙ ap (λ k. some (record s { seq = k }, [])) read
