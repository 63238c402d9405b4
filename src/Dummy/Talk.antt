-- ===== src/Dummy/Talk.antt =====
-- The invariant of the connection between the sample client and server of NetLibExample.
use rio_network.Base.{
  ℕ, ◌+◌, ◌^◌, ◌<◌, ◌≡◌, refl, sym, ap, subst, ◌∙◌, inl, true, some, List, [], ◌∷◌, ◌++◌,
  append-nil, append_assoc, arith, length,
}
use rio_network.Dummy.Packet.{
  chat_msg, encode, packet_id, id_ask_chat_msg, id_ans_chat_msg, id_ans_chat_msg1,
}
use rio_network.Dummy.Server.{answer_to}
use rio_network.Dummy.Client.{DummySession, next_int, text, ask, on_connect, on_dispatch}
use rio_network.Dummy.Chat.{Chat, ChatStep, serve, ignore, react, tick, ChatReach, begin, after}
use rio_network.Dummy.PingPong.{
  Ticks, Ticks-append, news_packets, news_packets-append, packet_id-encode, count_id, answer_to_ask,
  react_answer, react_news,
}

module _ (news rest : List ℕ) where
  abbrev question : ℕ → List ℕ
  question n = encode id_ask_chat_msg (chat_msg (text rest) n)

  abbrev answer : ℕ → List ℕ
  answer n = encode id_ans_chat_msg (chat_msg (text rest) n)

  record Quiet (y : Chat) : Type 0 where
    small : y.client.no_ < 2 ^ 32
    seq_small : y.seq < 2 ^ 32
    sound : y.client.asserts ≡ true
    same_news : y.news ≡ news
    same_rest : y.rest ≡ rest

  -- A question is on its way to the server, or an answer, among the broadcasts, to the client.
  data Talk (y : Chat) : Type 0 where
    asking :
        (ns : List ℕ)
        → Quiet y
        → y.to_server ≡ question y.client.no_ ∷ []
        → y.to_client ≡ news_packets news ns
        → Ticks y.client.seq ns y.seq
        → Talk y
    answering :
        (ns ms : List ℕ)
        → Quiet y
        → y.to_server ≡ []
        → y.to_client ≡ news_packets news ns ++ (answer y.client.no_ ∷ news_packets news ms)
        → Ticks y.client.seq (ns ++ ms) y.seq
        → Talk y

  abbrev reacted : Chat → List (List ℕ) → DummySession × List (List ℕ) → Chat
  reacted y ps r = record y { client = r.0; to_client = ps; to_server = y.to_server ++ r.1 }

  abbrev Result : DummySession × List (List ℕ) → DummySession × List (List ℕ) → Type 0
  Result r r' = r ≡ r'

  module _ (full_news : length news ≡ 100) (full_text : length (text rest) ≡ 100) where
    serve-Talk :
        {y : Chat} {p : List ℕ} {ps : List (List ℕ)}
        → Talk y
        → y.to_server ≡ p ∷ ps
        → Talk (record y { to_server = ps; to_client = y.to_client ++ (answer_to p ∷ []) })
    serve-Talk {y} {p} {ps} (asking ns q server client ticks) e =
        let first : question y.client.no_ ≡ p = cc (server, e) in
        let none_left : [] ≡ ps = cc (server, e) in
        let reply : answer_to p ≡ answer y.client.no_ =
          ap answer_to (sym first) ∙ answer_to_ask (text rest) y.client.no_ full_text q.small in
        answering ns []
          (record {
            small = q.small;
            seq_small = q.seq_small;
            sound = q.sound;
            same_news = q.same_news;
            same_rest = q.same_rest;
          })
          (sym none_left)
          (ap (λ l. l ++ (answer_to p ∷ [])) client
            ∙ ap (λ a. news_packets news ns ++ (a ∷ [])) reply)
          (subst (λ l. Ticks y.client.seq l y.seq) (sym (append-nil ns)) ticks)
    serve-Talk (answering ns ms q server client ticks) e = absurd (cc (server, e))

    ticked :
        {y : Chat}
        → Quiet y
        → Quiet (record y {
          to_client = y.to_client ++ (encode id_ans_chat_msg1 (chat_msg y.news y.seq) ∷ []);
          seq = next_int y.seq;
        })
    ticked q = record {
      small = q.small;
      seq_small = omega arith;
      sound = q.sound;
      same_news = q.same_news;
      same_rest = q.same_rest;
    }

    -- The client has taken a broadcast.
    told :
        {y : Chat} (n : ℕ) (ps : List (List ℕ))
        → Quiet y
        → Quiet (record y {
          client = record y.client { seq = n };
          to_client = ps;
          to_server = y.to_server ++ [];
        })
    told n ps q = record {
      small = q.small;
      seq_small = q.seq_small;
      sound = q.sound;
      same_news = q.same_news;
      same_rest = q.same_rest;
    }

    tick-Talk :
        {y : Chat}
        → Talk y
        → Talk (record y {
          to_client = y.to_client ++ (encode id_ans_chat_msg1 (chat_msg y.news y.seq) ∷ []);
          seq = next_int y.seq;
        })
    tick-Talk {y} (asking ns q server client ticks) =
        asking (ns ++ (y.seq ∷ [])) (ticked q) server
          (ap (λ l. l ++ (encode id_ans_chat_msg1 (chat_msg y.news y.seq) ∷ [])) client
            ∙ ap (λ t. news_packets news ns ++ (encode id_ans_chat_msg1 (chat_msg t y.seq) ∷ []))
                q.same_news
            ∙ sym (news_packets-append news ns y.seq))
          (Ticks-append y.client.seq ns y.seq q.seq_small ticks)
    tick-Talk {y} (answering ns ms q server client ticks) =
        let before = news_packets news ns in
        let reply = answer y.client.no_ in
        answering ns (ms ++ (y.seq ∷ [])) (ticked q) server
          (ap (λ l. l ++ (encode id_ans_chat_msg1 (chat_msg y.news y.seq) ∷ [])) client
            ∙ append_assoc before (reply ∷ news_packets news ms) _
            ∙ ap
                (λ t.
                  before
                  ++ (reply
                      ∷ (news_packets news ms
                          ++ (encode id_ans_chat_msg1 (chat_msg t y.seq) ∷ []))))
                q.same_news
            ∙ ap (λ l. before ++ (reply ∷ l)) (sym (news_packets-append news ms y.seq)))
          (subst (λ l. Ticks y.client.seq l (next_int y.seq)) (append_assoc ns ms (y.seq ∷ []))
            (Ticks-append y.client.seq (ns ++ ms) y.seq q.seq_small ticks))

    react-Talk :
        {y : Chat} {p : List ℕ} {ps qs : List (List ℕ)} {s : DummySession}
        → Talk y
        → y.to_client ≡ p ∷ ps
        → on_dispatch y.rest p y.client ≡ some (s, qs)
        → Talk (record y { client = s; to_client = ps; to_server = y.to_server ++ qs })
    react-Talk (asking [] q server client ticks) e r = absurd (cc (client, e))
    react-Talk {y} {p} {ps} {qs} {s} (asking (n ∷ ns) q server client ticks) e r =
        let result = react_news rest news n y.client full_news ticks.1 q.sound ticks.0 in
        let same : Result (record y.client { seq = n }, []) (s, qs) =
          cc (client, e, r, result, q.same_rest) in
        subst (λ x. Talk (reacted y ps x)) same
          (asking ns (told n ps q) (append-nil y.to_server ∙ server) (cc (client, e)) ticks.2)
    react-Talk {y} {p} {ps} {qs} {s} (answering [] ms q server client ticks) e r =
        let result = react_answer rest y.client full_text q.small q.sound in
        let next_no = next_int y.client.no_ in
        let same : Result (record y.client { no_ = next_no }, question next_no ∷ []) (s, qs) =
          cc (client, e, r, result, q.same_rest) in
        subst (λ x. Talk (reacted y ps x)) same
          (asking ms
            (record {
              small = omega arith;
              seq_small = q.seq_small;
              sound = q.sound;
              same_news = q.same_news;
              same_rest = q.same_rest;
            })
            (ap (λ l. l ++ (question (next_int y.client.no_) ∷ [])) server) (cc (client, e)) ticks)
    react-Talk {y} {p} {ps} {qs} {s} (answering (n ∷ ns) ms q server client ticks) e r =
        let result = react_news rest news n y.client full_news ticks.1 q.sound ticks.0 in
        let same : Result (record y.client { seq = n }, []) (s, qs) =
          cc (client, e, r, result, q.same_rest) in
        subst (λ x. Talk (reacted y ps x)) same
          (answering ns ms (told n ps q) (append-nil y.to_server ∙ server) (cc (client, e)) ticks.2)

    ChatStep-Talk : {y y' : Chat} → Talk y → ChatStep y y' → Talk y'
    ChatStep-Talk t (serve e id) = serve-Talk t e
    ChatStep-Talk {y} (asking ns q server client ticks) (ignore {p} e no_ask) =
        let first : p ≡ question y.client.no_ = cc (server, e) in
        absurd
          (no_ask (ap packet_id first ∙ packet_id-encode id_ask_chat_msg (text rest) y.client.no_))
    ChatStep-Talk (answering ns ms q server client ticks) (ignore e no_ask) =
        absurd (cc (server, e))
    ChatStep-Talk t (react e r) = react-Talk t e r
    ChatStep-Talk t tick = tick-Talk t

    ChatReach-Talk : {seq : ℕ} {y : Chat} → seq < 2 ^ 32 → ChatReach news rest seq y → Talk y
    unfolding on_connect ask
    ChatReach-Talk small begin =
        asking []
          (record {
            small = omega arith;
            seq_small = small;
            sound = refl;
            same_news = refl;
            same_rest = refl;
          })
          refl refl (inl refl)
    ChatReach-Talk small (after r s) = ChatStep-Talk (ChatReach-Talk small r) s

count_id-append :
    (id : ℕ) (ps qs : List (List ℕ)) → count_id id (ps ++ qs) ≡ count_id id ps + count_id id qs
count_id-append id [] qs = omega arith
count_id-append id (p ∷ ps) qs = omega (arith, count_id-append id ps qs)

count_id-news : (news ns : List ℕ) → count_id id_ans_chat_msg (news_packets news ns) ≡ 0
count_id-news news [] = refl
count_id-news news (n ∷ ns) =
    ground (arith, packet_id-encode id_ans_chat_msg1 news n, count_id-news news ns)

Talk-count :
    {news rest : List ℕ} {y : Chat}
    → Talk news rest y
    → length y.to_server + count_id id_ans_chat_msg y.to_client ≡ 1
Talk-count {news} {rest} {y} (asking ns q server client ticks) =
    ground (arith, ap length server, ap (count_id id_ans_chat_msg) client, count_id-news news ns)
Talk-count {news} {rest} {y} (answering ns ms q server client ticks) =
    let reply = encode id_ans_chat_msg (chat_msg (text rest) y.client.no_) in
    ground (
      arith,
      ap length server,
      ap (count_id id_ans_chat_msg) client,
      count_id-append id_ans_chat_msg (news_packets news ns) (reply ∷ news_packets news ms),
      packet_id-encode id_ans_chat_msg (text rest) y.client.no_,
      count_id-news news ns,
      count_id-news news ms,
    )

Talk-sound : {news rest : List ℕ} {y : Chat} → Talk news rest y → y.client.asserts ≡ true
Talk-sound (asking ns q server client ticks) = q.sound
Talk-sound (answering ns ms q server client ticks) = q.sound

-- However the sample client, the server and the server's broadcasts interleave on a connection that
-- delivers packets whole, once and in order, no NET_ASSERT of the client's two handlers fails: each
-- answer carries the number of the last question, and each broadcast the number behind the one
-- before; and exactly one question or answer is on its way at any time. The
-- broadcast text has 100 bytes, and the rest of the client's text 19.
pub chat_sound :
    {news rest : List ℕ} {seq : ℕ} {y : Chat}
    → length news ≡ 100
    → length rest ≡ 19
    → seq < 2 ^ 32
    → ChatReach news rest seq y
    → (y.client.asserts ≡ true) × (length y.to_server + count_id id_ans_chat_msg y.to_client ≡ 1)
chat_sound {news} {rest} full_news full_rest small r =
    let t = ChatReach-Talk news rest full_news (omega (arith, full_rest)) small r in
    (Talk-sound t, Talk-count t)
