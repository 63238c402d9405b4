-- ===== src/Session/Sending.antt =====
-- The sending of Session.cpp as a stream: what `PostSend` hands to the network, what callers add
-- meanwhile, and what `CompletedSend` takes off.
use rio_network.Base.{
  ℕ, ◌≤◌, ◌<◌, ◌^◌, ◌≡◌, refl, sym, ap, ap₂, subst, ◌∙◌, Bool, true, false, List, [], ◌∷◌, ◌++◌,
  append-nil, append_assoc, arith, ltb, ◌==◌, if◌then◌else◌, pos, to_int, length, take, drop,
  take_all, take-append-drop,
}
use rio_network.Fifo
use rio_network.Ring.{
  Ring, get_data_length, get_first_data_offset, get_first_data_len, put_data, pop_data,
}
use rio_network.Ring.Contents.{IsValid, contents}
use rio_network.Ring.Put.{put_data_refines}
use rio_network.Ring.Pop.{pop_data_refines}
use rio_network.Ring.Segments.{segments_lem}
use rio_network.Ring.InFlight.{first_len-put_data, take-contents_first}
use rio_network.Session.{Session, Reply, is_connected, accepts, posted_send}
use rio_network.Session.Send.{marshall, flush, completed_send}

-- Several callers of `PostSendBuffered`, one after the other, and the bytes that were taken.
pub marshalls : List (List ℕ) → Session → Session
marshalls [] s = s
marshalls (b ∷ bs) s = marshalls bs (marshall b (length b) s).0

pub stored : List (List ℕ) → Session → List ℕ
stored [] s = []
stored (b ∷ bs) s =
    let (s', done) = marshall b (length b) s in (if done then b else []) ++ stored bs s'

-- No length becomes negative as an `int`.
abbrev pub AllSmall : List (List ℕ) → Type 0
AllSmall [] = Unit {0}
AllSmall (b ∷ bs) = (length b < 2 ^ 31) × AllSmall bs

-- The ring behind an earlier one whose first `size` bytes are being sent.
record Grown (r r' : Ring) (added : List ℕ) : Type 0 where
  valid : IsValid r'
  bytes : contents r' ≡ contents r ++ added
  offset : get_first_data_offset r' ≡ get_first_data_offset r
  first : get_first_data_len r ≤ get_first_data_len r'

put_data-Grown :
    (r : Ring) (b : List ℕ)
    → IsValid r
    → let (r', done) = put_data r b (pos (length b)) in Grown r r' (if done then b else [])
unfolding Fifo.put
put_data-Grown r b v =
    let (valid, e, same) = put_data_refines b (length b) v (omega arith) in
    let (offset, first) = first_len-put_data r b (length b) v in
    record {
      valid = valid;
      bytes =
          ground (
            arith,
            ap (λ x. x.0) e,
            ap (λ x. x.1) e,
            take_all (length b) b,
            append-nil (contents r),
          );
      offset = offset;
      first = first;
    }

pub marshall_lem :
    (s : Session) (b : List ℕ)
    → is_connected s ≡ true
    → length b < 2 ^ 31
    → marshall b (length b) s ≡ (
      record s { send_buffer = (put_data s.send_buffer b (pos (length b))).0 },
      (put_data s.send_buffer b (pos (length b))).1,
    )
unfolding marshall
marshall_lem s b on small =
    ap
      (λ (c : Bool).
        if c
        then (let (ring, stored) = put_data s.send_buffer b (to_int (length b)) in
            (record s { send_buffer = ring }, stored))
        else (s, false))
      on
    ∙ ap
        (λ i. (
          record s { send_buffer = (put_data s.send_buffer b i).0 },
          (put_data s.send_buffer b i).1,
        ))
        {x = to_int (length b)} {y = pos (length b)} (ground arith)

marshalls-Grown :
    (bs : List (List ℕ)) (s : Session)
    → IsValid s.send_buffer
    → is_connected s ≡ true
    → AllSmall bs
    → Grown s.send_buffer (marshalls bs s).send_buffer (stored bs s)
      × (is_connected (marshalls bs s) ≡ true)
unfolding marshalls stored
marshalls-Grown [] s v on small =
    (record { valid = v; bytes = sym (append-nil _); offset = refl; first = omega arith }, on)
marshalls-Grown (b ∷ bs) s v on small =
    let (ring, done) = put_data s.send_buffer b (pos (length b)) in
    let s' : Session = record s { send_buffer = ring } in
    let here : Grown s.send_buffer ring (if done then b else []) =
      put_data-Grown s.send_buffer b v in
    let (rest, still) = marshalls-Grown bs s' here.valid on small.1 in
    subst
      (λ (x : Session × Bool).
        Grown s.send_buffer (marshalls bs x.0).send_buffer
          ((if x.1 then b else []) ++ stored bs x.0)
        × (is_connected (marshalls bs x.0) ≡ true))
      (sym (marshall_lem s b on small.0))
      (
        record {
          valid = rest.valid;
          bytes =
              rest.bytes
              ∙ ap (λ q. q ++ stored bs s') here.bytes
              ∙ append_assoc (contents s.send_buffer) (if done then b else []) (stored bs s');
          offset = rest.offset ∙ here.offset;
          first = omega (arith, rest.first, here.first);
        },
        still,
      )

pub flush-buffer : (reply : Reply) (s : Session) → (flush reply s).0.send_buffer ≡ s.send_buffer
unfolding flush
flush-buffer reply s = ground arith

completed_send-buffer :
    (n : ℕ) (reply : Reply) (s : Session)
    → is_connected s ≡ true
    → 0 < n
    → n ≤ get_data_length s.send_buffer
    → (completed_send n reply s).0.send_buffer ≡ (pop_data s.send_buffer n).0
unfolding completed_send
completed_send-buffer n reply s on some_bytes enough =
    let nonzero : (n == 0) ≡ false = ground arith in
    let held : ltb (get_data_length s.send_buffer) n ≡ false = ground arith in
    rw (completed_send, on, nonzero, held)
      (flush-buffer reply
        (record s { send_buffer = (pop_data s.send_buffer n).0; send_pending = false }))

flush_lem :
    (reply : Reply) (s : Session)
    → is_connected s ≡ true
    → 0 < get_data_length s.send_buffer
    → s.send_pending ≡ false
    → accepts s.io_model reply ≡ true
    → let s' = (flush reply s).0 in
      (s'.out
        ≡ posted_send (get_first_data_offset s.send_buffer) (get_first_data_len s.send_buffer)
          ∷ s.out)
      × (s'.send_buffer ≡ s.send_buffer)
      × (is_connected s' ≡ true)
unfolding flush
flush_lem reply s on some_bytes idle accepted = ground arith

-- The bytes that the network takes from the piece, as the memory is when the send completes.
taken_bytes :
    (n : ℕ) {r r' : Ring} {added : List ℕ}
    → Grown r r' added
    → IsValid r
    → n ≤ get_first_data_len r
    → take n (drop (get_first_data_offset r) r'.buffer) ≡ take n (contents r')
taken_bytes n {r} {r'} g v h =
    sym (ap (λ o. take n (drop o r'.buffer)) g.offset)
    ∙ sym (take-contents_first n g.valid (omega (arith, g.first)))

-- What is sent and what is left make up the stream. Let a connected session with no send on its way
-- and a valid send buffer send, let the system accept it, let callers then add any data (shorter
-- than 2 ^ 31 bytes each), and let the network take `n` bytes, at least one, of the piece that it
-- was given. The posted piece is the first piece of the buffer. The `n` bytes, as they stand in the
-- memory at the end, followed by what `CompletedSend` leaves in the buffer, are the bytes that the
-- buffer held, followed by those that it took from the callers; and the buffer is valid.
pub sent_stream :
    (reply reply' : Reply) (bs : List (List ℕ)) (n : ℕ) (s : Session)
    → IsValid s.send_buffer
    → is_connected s ≡ true
    → s.send_pending ≡ false
    → accepts s.io_model reply ≡ true
    → AllSmall bs
    → 0 < n
    → n ≤ get_first_data_len s.send_buffer
    → let sending = (flush reply s).0 in
      let behind = marshalls bs sending in
      let after = (completed_send n reply' behind).0 in
      (sending.out
        ≡ posted_send (get_first_data_offset s.send_buffer) (get_first_data_len s.send_buffer)
          ∷ s.out)
      × (take n (drop (get_first_data_offset s.send_buffer) behind.send_buffer.buffer)
            ++ contents after.send_buffer
          ≡ contents s.send_buffer ++ stored bs sending)
      × IsValid after.send_buffer
unfolding Fifo.pop
sent_stream reply reply' bs n s v on idle accepted small some_bytes enough =
    let (pieces, all, inside, empty) = segments_lem v in
    let sending = (flush reply s).0 in
    let behind = marshalls bs sending in
    let (out, kept, on') = flush_lem reply s on (omega (arith, all)) idle accepted in
    let (g, still) = marshalls-Grown bs sending (subst IsValid (sym kept) v) on' small in
    let g' : Grown s.send_buffer behind.send_buffer (stored bs sending) =
      subst (λ r. Grown r behind.send_buffer (stored bs sending)) kept g in
    let held : n ≤ get_data_length behind.send_buffer =
      let (pieces', all', inside', empty') = segments_lem g'.valid in
      omega (arith, all', g'.first) in
    let popped = completed_send-buffer n reply' behind still some_bytes held in
    let (valid, e, same) = pop_data_refines n g'.valid held in
    (
      out,
      ap₂ ◌++◌ (taken_bytes n g' v enough) (ap contents popped ∙ ap (λ x. x.0) e)
          ∙ take-append-drop n (contents behind.send_buffer)
          ∙ g'.bytes,
      subst IsValid (sym popped) valid,
    )
