-- ===== src/Session/Tests.antt =====
-- A session of Session.cpp at concrete bytes: its buffers as large as the code makes them
-- (`MAX_PACKET_SIZE * 2`), and the theorems at sessions that meet their hypotheses.
use rio_network.Base.{
  take, drop, ℕ, zero, suc, ◌≡◌, ◌≢◌, refl, ap, true, false, none, some, List, [], ◌∷◌, ◌++◌, arith,
  pos, length,
}
use rio_network.Ring.{
  get_first_data_offset, get_first_data_len, is_split, Ring, create, get_data_length, is_full,
}
use rio_network.Ring.Contents.{IsValid, contents, create-IsValid}
use rio_network.Session.{posted_send, pending, Session, iocp, no_reason}
use rio_network.Session.Recv.{nothing, unmarshall}
use rio_network.Session.Send.{flush, completed_send}
use rio_network.Session.Sending.{marshalls, stored, sent_stream}
use rio_network.Session.Process.{Callback, Drained, send_buffered, drain}
use rio_network.Session.Frames.{frame, Framed, IsPacket, concat, Framed-concat}
use rio_network.Session.Unmarshall.{Cuts, unmarshall_lem, full-unmarshall}
use rio_network.Session.Untouched.{delivered}
use rio_network.Session.Deliver.{Delivers, drain-Delivers, drain_empty_packet}
use rio_network.Session.Stream.{receive_all, stream_delivers}

-- Bytes of memory.
zeros : ℕ → List ℕ
zeros zero = []
zeros (suc n) = 0 ∷ zeros n

length-zeros : (n : ℕ) → length (zeros n) ≡ n
unfolding zeros
length-zeros zero = refl
length-zeros (suc n) = ap suc (length-zeros n)

-- A packet of four bytes with the payload 7 7, and the header of another one.
abbrev packet_bytes : List ℕ
packet_bytes = 4 ∷ 0 ∷ 7 ∷ 7 ∷ []

abbrev received : Ring
received = record {
  buffer = 4 ∷ 0 ∷ 7 ∷ 7 ∷ 9 ∷ 0 ∷ 0 ∷ 0 ∷ [];
  buf_size = 8;
  head_pos = 0;
  tail_pos = 6;
}

received-IsValid : IsValid received
received-IsValid = omega arith

contents-received : contents received ≡ packet_bytes ++ (9 ∷ 0 ∷ [])
unfolding contents get_data_length
contents-received = refl

abbrev session_with : Ring → Session
session_with ring = record {
  id = 0;
  io_model = iocp;
  connect = true;
  socket = some 5;
  reason = no_reason;
  recv_buffer = ring;
  send_buffer = record { buffer = 0 ∷ 0 ∷ 0 ∷ 0 ∷ []; buf_size = 4; head_pos = 0; tail_pos = 0 };
  thread_id = 0;
  peer_ip = [];
  peer_port = 0;
  target_ip = [];
  target_port = 0;
  ref_count = pos 1;
  recv_pending = false;
  send_pending = false;
  proc_pending = false;
  out = [];
}

-- A server that answers each packet with its bytes.
abbrev echo : Session → List ℕ → Callback
echo s p = record { requests = send_buffered p (length p) ∷ []; throws = false }

packet_bytes-IsPacket : IsPacket packet_bytes
packet_bytes-IsPacket = record { header = refl; enough = omega arith }

frame_partial : frame (9 ∷ 0 ∷ []) ≡ none
unfolding frame
frame_partial = refl

unmarshall_lem_example : Cuts received (frame (contents received)) (unmarshall received)
unmarshall_lem_example = unmarshall_lem received-IsValid

-- The receive buffer of the code with no byte free.
abbrev full : Ring
full = record { buffer = zeros 131072; buf_size = 131072; head_pos = 0; tail_pos = 131071 }

full-IsValid : IsValid full
full-IsValid = omega (arith, length-zeros 131072)

is_full-full : is_full full ≡ true
unfolding is_full get_data_length
is_full-full = refl

full-unmarshall_example : unmarshall full ≢ nothing
full-unmarshall_example = full-unmarshall full-IsValid (omega arith) is_full-full

Framed-stream : Framed (concat (packet_bytes ∷ []) ++ (9 ∷ 0 ∷ [])) (packet_bytes ∷ []) (9 ∷ 0 ∷ [])
Framed-stream =
    Framed-concat (packet_bytes ∷ []) (9 ∷ 0 ∷ []) (packet_bytes-IsPacket, tt) frame_partial

drain-Delivers_example :
    (d : Drained) × (drain echo 2 0 (session_with received) ≡ some d)
    × Delivers (session_with received) 0 (packet_bytes ∷ []) (9 ∷ 0 ∷ []) d
drain-Delivers_example =
    drain-Delivers echo (λ s p. refl) Framed-stream 2 0 (session_with received) (omega arith)
      received-IsValid contents-received

abbrev poisoned : Ring
poisoned = record { buffer = 0 ∷ 0 ∷ 7 ∷ 0 ∷ []; buf_size = 4; head_pos = 0; tail_pos = 3 }

poisoned-IsValid : IsValid poisoned
poisoned-IsValid = omega arith

contents-poisoned : contents poisoned ≡ 0 ∷ 0 ∷ 7 ∷ []
unfolding contents get_data_length
contents-poisoned = refl

drain_empty_packet_example : drain echo 1000000 0 (session_with poisoned) ≡ none
drain_empty_packet_example =
    drain_empty_packet echo (λ s p. refl) (7 ∷ []) 1000000 0 (session_with poisoned)
      poisoned-IsValid contents-poisoned

-- The packet comes in two pieces, the second with the start of the next one.
abbrev pieces : List (List ℕ)
pieces = (4 ∷ 0 ∷ 7 ∷ []) ∷ (7 ∷ 9 ∷ 0 ∷ []) ∷ []

abbrev empty : Ring
empty = create (zeros 131072) 131072

empty-IsValid : IsValid empty
empty-IsValid =
    create-IsValid (zeros 131072) 131072 (length-zeros 131072) (omega arith) (omega arith)

contents-empty : contents empty ≡ []
unfolding contents get_data_length create
contents-empty = refl

frame-empty : frame (contents empty) ≡ none
unfolding frame
frame-empty = rw contents-empty refl

Framed-pieces : Framed (contents empty ++ concat pieces) (packet_bytes ∷ []) (9 ∷ 0 ∷ [])
Framed-pieces = rw contents-empty Framed-stream

stream_delivers_example :
    (s' : Session) × (receive_all echo 2 pieces (session_with empty) ≡ some s')
    × (delivered s'.out ≡ packet_bytes ∷ [])
    × (contents s'.recv_buffer ≡ 9 ∷ 0 ∷ [])
unfolding create
stream_delivers_example =
    stream_delivers echo (λ s p. refl) 2 3 pieces (session_with empty) empty-IsValid (omega arith)
      frame-empty (omega arith) Framed-pieces (omega arith)

-- Three bytes wait to be sent.
abbrev waiting : Ring
waiting = record {
  buffer = 1 ∷ 2 ∷ 3 ∷ 0 ∷ 0 ∷ 0 ∷ 0 ∷ 0 ∷ [];
  buf_size = 8;
  head_pos = 0;
  tail_pos = 3;
}

abbrev sender : Session
sender = record (session_with received) { send_buffer = waiting }

abbrev added : List (List ℕ)
added = (4 ∷ 5 ∷ []) ∷ (6 ∷ []) ∷ []

sent_stream_example :
    let sending = (flush pending sender).0 in
    let behind = marshalls added sending in
    let after = (completed_send 2 pending behind).0 in
    (sending.out ≡ posted_send (get_first_data_offset waiting) (get_first_data_len waiting) ∷ [])
    × (take 2 (drop (get_first_data_offset waiting) behind.send_buffer.buffer)
          ++ contents after.send_buffer
        ≡ contents waiting ++ stored added sending)
    × IsValid after.send_buffer
unfolding get_first_data_len is_split
sent_stream_example =
    sent_stream pending pending added 2 sender (omega arith) refl refl refl
      (omega arith, (omega arith, tt)) (omega arith) (omega arith)
