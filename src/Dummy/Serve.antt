-- ===== src/Dummy/Serve.antt =====
-- The sample server of NetLibExample on the library: a stream of questions that comes in pieces, with
-- `CompletedRecv` and `ProcessCompletion` of Session.cpp for each.
use rio_network.Base.{
  ℕ, zero, suc, ◌+◌, ◌*◌, ◌^◌, ◌≤◌, ◌<◌, ◌≡◌, refl, sym, ap, subst, ◌∙◌, true, false, some, none,
  List, [], ◌∷◌, ◌++◌, append-nil, append_assoc, arith, length, length-append, take_all,
}
use rio_network.Fifo
use rio_network.Ring.Contents.{IsValid, contents}
use rio_network.Ring.Put.{put_data_refines}
use rio_network.Session.{Session, Reply, is_connected, accepts}
use rio_network.Session.Recv.{unmarshall, completed_recv}
use rio_network.Session.Process.{Drained, dispatch, drain, finish, post_process, process_completion}
use rio_network.Session.Frames.{frame, Framed, stop, cut, concat}
use rio_network.Session.Unmarshall.{unmarshall_lem, Cuts}
use rio_network.Session.Untouched.{finish_lem}
use rio_network.Session.Deliver.{drain-stop, drain-cut, dispatch_lem}
use rio_network.Session.Stream.{
  receive_all, Pieces, frame-none-length, Framed-Parts, Framed-rest, nothing_to_cut,
  completed_recv_lem,
}
use rio_network.Dummy.Packet.{
  ChatMsg, IsChatMsg, encode, decode-encode, id_ask_chat_msg, id_ans_chat_msg, sizeof_chat_msg,
}
use rio_network.Dummy.Server.{answer_to, on_dispatch}
use rio_network.Dummy.Echo.{
  IsQuestion, AllQuestions, AllQuestions-append, answers, answers-append, Ready, returns,
  question-Sends, Served,
}

-- Room for fewer answers.
fewer :
    {reply : Reply} (count less : ℕ) {s : Session}
    → less ≤ count
    → Ready reply count s
    → Ready reply less s
fewer count less h r = record {
  on = r.on;
  accepted = r.accepted;
  recv = r.recv;
  send = r.send;
  room = omega (arith, r.room, h);
}

module _ (behind : List ℕ) (reply : Reply) where
  drain-Served :
      {q rest : List ℕ} {ps : List (List ℕ)}
      → Framed q ps rest
      → (fuel count : ℕ) (s : Session) (more : ℕ) → length ps < fuel
      → AllQuestions ps
      → Ready reply (length ps + more) s
      → contents s.recv_buffer ≡ q
      → (d : Drained) × (drain (on_dispatch behind reply) fuel count s ≡ some d)
        × Served behind reply ps rest s d
        × Ready reply more d.session
  drain-Served f zero count s more h all r e = absurd (omega arith)
  drain-Served (stop no_packet) (suc fuel) count s more h all r e =
      let u =
        subst (λ o. Cuts s.recv_buffer o (unmarshall s.recv_buffer)) (ap frame e ∙ no_packet)
          (unmarshall_lem r.recv) in
      (
        record { session = s; has_error = false; count = count },
        drain-stop (on_dispatch behind reply) (returns behind reply) fuel count s u,
        record {
          sends = sym (append-nil (contents s.send_buffer));
          left = e;
          no_error = refl;
          ready = fewer more 0 (omega arith) (fewer (0 + more) more (omega arith) r);
          send_size = refl;
          recv_size = refl;
        },
        fewer (0 + more) more (omega arith) r,
      )
  drain-Served (cut {p = p} {ps = ps} first others) (suc fuel) count s more h all r e =
      let (ring, eq, valid, left, same) =
        subst (λ o. Cuts s.recv_buffer o (unmarshall s.recv_buffer)) (ap frame e ∙ first)
          (unmarshall_lem r.recv) in
      let cut_off : Session = record s { recv_buffer = ring } in
      let s' = (dispatch (on_dispatch behind reply) p cut_off).0 in
      let (kept, quiet) =
        dispatch_lem (on_dispatch behind reply) (returns behind reply) p cut_off in
      let (sent, size) =
        question-Sends behind reply p cut_off all.0 r.on r.accepted r.send
          (omega (arith, r.room)) in
      let grown = ap length sent.held ∙ length-append (contents s.send_buffer) (answer_to p) in
      let (d, ran, v, ready) =
        drain-Served others fuel (count + 1) s' more (omega (arith, h)) all.1
          (record {
            on = sent.keeps.connected ∙ r.on;
            accepted = ap (λ x. accepts x reply) sent.keeps.model ∙ r.accepted;
            recv = subst IsValid (sym kept) valid;
            send = sent.valid;
            room = omega (arith, r.room, grown, size, sent.size);
          })
          (ap contents kept ∙ left) in
      (
        d,
        drain-cut (on_dispatch behind reply) (returns behind reply) fuel count s eq ∙ ran,
        record {
          sends =
              v.sends
              ∙ ap (λ l. l ++ answers ps) sent.held
              ∙ append_assoc (contents s.send_buffer) (answer_to p) (answers ps);
          left = v.left;
          no_error = v.no_error;
          ready = v.ready;
          send_size = v.send_size ∙ sent.size;
          recv_size = v.recv_size ∙ ap (λ x. x.buf_size) kept ∙ same;
        },
        ready,
      )

-- What a step leaves alone that is about sending.
record SameSend (s s' : Session) : Type 0 where
  buffer : s'.send_buffer ≡ s.send_buffer
  on : is_connected s' ≡ is_connected s
  model : s'.io_model ≡ s.io_model

completed_recv-SameSend :
    (c : List ℕ) (s : Session)
    → IsValid s.recv_buffer
    → 0 < length c
    → length c < 2 ^ 31
    → length (contents s.recv_buffer) + length c < s.recv_buffer.buf_size
    → SameSend s (completed_recv (length c) c s)
unfolding completed_recv Fifo.put
completed_recv-SameSend c s v some_bytes small fits =
    let (valid, e, same) = put_data_refines c (length c) v (omega arith) in
    let whole = take_all (length c) c in
    record {
      buffer = ground (arith, e, whole);
      on = ground (arith, e, whole);
      model = ground (arith, e, whole);
    }

post_process-SameSend : (s : Session) → SameSend s (post_process s)
unfolding post_process
post_process-SameSend s = record { buffer = ground arith; on = ground arith; model = ground arith }

finish-SameSend : (d : Drained) → d.has_error ≡ false → SameSend d.session (finish d)
unfolding finish
finish-SameSend d e =
    let k = post_process-SameSend (record d.session { proc_pending = false }) in
    rw e (record { buffer = k.buffer; on = k.on; model = k.model })

SameSend-Ready :
    {reply : Reply} {count : ℕ} (s : Session) {s' : Session}
    → SameSend s s'
    → IsValid s'.recv_buffer
    → Ready reply count s
    → Ready reply count s'
SameSend-Ready {reply} s k v r = record {
  on = k.on ∙ r.on;
  accepted = ap (λ m. accepts m reply) k.model ∙ r.accepted;
  recv = v;
  send = subst IsValid (sym k.buffer) r.send;
  room =
      omega (arith, r.room, ap (λ x. length (contents x)) k.buffer, ap (λ x. x.buf_size) k.buffer);
}

module _ (behind : List ℕ) (reply : Reply) where
  -- One receive and its processing.
  serve_piece :
      (fuel : ℕ) (s : Session) (c : List ℕ) {ps : List (List ℕ)} {mid : List ℕ} (more : ℕ)
      → 0 < length c
      → length c < 2 ^ 31
      → length (contents s.recv_buffer) + length c < s.recv_buffer.buf_size
      → Framed (contents s.recv_buffer ++ c) ps mid
      → length ps < fuel
      → AllQuestions ps
      → Ready reply (length ps + more) s
      → (s' : Session) × (process_completion
            (on_dispatch behind reply)
            fuel
            (completed_recv (length c) c s)
          ≡ some s')
        × (contents s'.send_buffer ≡ contents s.send_buffer ++ answers ps)
        × (contents s'.recv_buffer ≡ mid)
        × (s'.recv_buffer.buf_size ≡ s.recv_buffer.buf_size)
        × Ready reply more s'
  unfolding process_completion
  serve_piece fuel s c {ps} {mid} more some_bytes small fits f enough all r =
      let (valid, held, same, quiet) = completed_recv_lem s c r.recv some_bytes small fits in
      let k = completed_recv-SameSend c s r.recv some_bytes small fits in
      let (d, ran, v, ready) =
        drain-Served behind reply f fuel 0 (completed_recv (length c) c s) more enough all
          (SameSend-Ready s k valid r) held in
      let (kept, out) = finish_lem d v.no_error in
      let l = finish-SameSend d v.no_error in
      (
        finish d,
        rw (ran, process_completion) refl,
        ap contents l.buffer ∙ v.sends ∙ ap (λ x. contents x ++ answers ps) k.buffer,
        ap contents kept ∙ v.left,
        ap (λ x. x.buf_size) kept ∙ v.recv_size ∙ same,
        SameSend-Ready d.session l (subst IsValid (sym kept) ready.recv) ready,
      )

  serve-Pieces :
      (fuel n : ℕ) (pieces : List (List ℕ)) (s : Session) {ps : List (List ℕ)} {rest : List ℕ}
      → 65535 + n ≤ s.recv_buffer.buf_size
      → frame (contents s.recv_buffer) ≡ none
      → Pieces n pieces
      → Framed (contents s.recv_buffer ++ concat pieces) ps rest
      → length ps < fuel
      → AllQuestions ps
      → Ready reply (length ps) s
      → (s' : Session) × (receive_all (on_dispatch behind reply) fuel pieces s ≡ some s')
        × (contents s'.send_buffer ≡ contents s.send_buffer ++ answers ps)
        × (contents s'.recv_buffer ≡ rest)
  unfolding receive_all
  serve-Pieces fuel n [] s {ps} {rest} large partial small f enough all r =
      let (none_left, left) =
        nothing_to_cut partial (subst (λ x. Framed x ps rest) (append-nil _) f) in
      (s, refl, sym (ap (λ x. contents s.send_buffer ++ answers x) none_left ∙ append-nil _), left)
  serve-Pieces fuel n (c ∷ cs) s {ps} {rest} large partial small f enough all r =
      let (ps', ps'', mid, first, others, split) =
        Framed-Parts (contents s.recv_buffer ++ c) (concat cs) f
          (sym (append_assoc (contents s.recv_buffer) c (concat cs))) in
      let sum = ap length split ∙ length-append ps' ps'' in
      let (front, back) = AllQuestions-append ps' ps'' (subst AllQuestions split all) in
      let (s', ran, sends, left, same, ready) =
        serve_piece fuel s c (length ps'') small.0 (omega (arith, r.recv, small, large))
          (omega (arith, small, large, frame-none-length (contents s.recv_buffer) partial)) first
          (omega (arith, sum, enough)) front (subst (λ k. Ready reply k s) sum r) in
      let (s'', ran', sends', left') =
        serve-Pieces fuel n cs s' (omega (arith, same, large)) (ap frame left ∙ Framed-rest first)
          small.2 (subst (λ x. Framed (x ++ concat cs) ps'' rest) (sym left) others)
          (omega (arith, sum, enough)) back ready in
      (
        s'',
        rw (ran, receive_all) ran',
        sends'
            ∙ ap (λ x. x ++ answers ps'') sends
            ∙ append_assoc (contents s.send_buffer) (answers ps') (answers ps'')
            ∙ ap (λ x. contents s.send_buffer ++ x)
                (sym (ap answers split ∙ answers-append ps' ps'')),
        left',
      )

-- The packets with this id and these members.
abbrev pub packets_of : ℕ → List ChatMsg → List (List ℕ)
packets_of id [] = []
packets_of id (m ∷ ms) = encode id m ∷ packets_of id ms

abbrev pub AllChat : List ChatMsg → Type 0
AllChat [] = Unit {0}
AllChat (m ∷ ms) = IsChatMsg m × AllChat ms

questions_lem :
    (ms : List ChatMsg)
    → AllChat ms
    → AllQuestions (packets_of id_ask_chat_msg ms)
      × (answers (packets_of id_ask_chat_msg ms) ≡ concat (packets_of id_ans_chat_msg ms))
      × (length (packets_of id_ask_chat_msg ms) ≡ length ms)
unfolding IsQuestion answer_to
questions_lem [] k = (tt, refl, refl)
questions_lem (m ∷ ms) k =
    let (all, same, size) = questions_lem ms k.1 in
    let reads : answer_to (encode id_ask_chat_msg m) ≡ encode id_ans_chat_msg m =
      ap answer_to (sym (append-nil (encode id_ask_chat_msg m)))
      ∙ ap (encode id_ans_chat_msg) (decode-encode id_ask_chat_msg m [] k.0) in
    (
      ((m, k.0, refl), all),
      ap (λ l. l ++ answers (packets_of id_ask_chat_msg ms)) reads
          ∙ ap (λ l. encode id_ans_chat_msg m ++ l) same,
      ap suc size,
    )

-- The library and the sample server together. When a stream of questions, and then perhaps the start
-- of another packet, comes to a connected session in any non-empty pieces of at most `n` bytes, each
-- processed before the next one comes, the send buffer grows by exactly the answers with the texts
-- and numbers of these questions, in their order. The receive buffer is empty or holds the start of
-- a packet, and has room for the longest packet and a piece; the send buffer has room for the
-- answers; the system accepts every send; and the packet loop may take one round more than there
-- are questions.
pub serve_stream :
    (behind : List ℕ) (reply : Reply) (fuel n : ℕ) (pieces : List (List ℕ)) (s : Session)
    (ms : List ChatMsg) {rest : List ℕ}
    → IsValid s.recv_buffer
    → IsValid s.send_buffer
    → is_connected s ≡ true
    → accepts s.io_model reply ≡ true
    → 65535 + n ≤ s.recv_buffer.buf_size
    → length (contents s.send_buffer) + sizeof_chat_msg * length ms < s.send_buffer.buf_size
    → frame (contents s.recv_buffer) ≡ none
    → Pieces n pieces
    → AllChat ms
    → Framed (contents s.recv_buffer ++ concat pieces) (packets_of id_ask_chat_msg ms) rest
    → length ms < fuel
    → (s' : Session) × (receive_all (on_dispatch behind reply) fuel pieces s ≡ some s')
      × (contents s'.send_buffer ≡ contents s.send_buffer ++ concat (packets_of id_ans_chat_msg ms))
      × (contents s'.recv_buffer ≡ rest)
serve_stream behind reply fuel n pieces s ms v w on accepted large room partial small k f enough =
    let (all, same, size) = questions_lem ms k in
    let (s', ran, sends, left) =
      serve-Pieces behind reply fuel n pieces s large partial small f (omega (arith, size, enough))
        all
        (record {
          on = on;
          accepted = accepted;
          recv = v;
          send = w;
          room = omega (arith, room, size);
        }) in
    (s', ran, sends ∙ ap (λ l. contents s.send_buffer ++ l) same, left)
