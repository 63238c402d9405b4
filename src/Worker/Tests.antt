-- ===== src/Worker/Tests.antt =====
-- One connection of a session of NetLib/NetLib, from `Attach` to the closing list, and the
-- theorems of Safety at it.
use rio_network.Base.{
  ℕ, ◌+◌, ◌≤◌, ◌≡◌, refl, true, false, none, some, List, [], ◌∷◌, arith, pos, length, increment,
  decrement, count_flag,
}
use rio_network.Ring.{
  Ring, clear, get_data_length, is_split, get_first_data_offset, get_first_data_len, can_put_data,
  check_split, store, put_data, get_data, pop_data,
}
use rio_network.Session.{Session, own, iocp, no_reason, pending}
use rio_network.Session.Refs.{add_ref, release_ref, disconnect, attach}
use rio_network.Session.Recv.{
  post_recv, completed_recv, packet_size, is_completed_packet, unmarshall,
}
use rio_network.Session.Send.{marshall, flush, post_send}
use rio_network.Session.Process.{
  Callback, send, post_process, perform, perform_all, dispatch, drain, finish, process_completion,
}
use rio_network.Session.Counts.{recv_posts, send_posts, proc_posts, posts}
use rio_network.Worker.{on_recv, on_failed, on_process}
use rio_network.Worker.Life.{
  Life, take_recv, take_send, take_proc, reopen, receive, recv, proc, recv_failed, send_failed,
  IsFresh, unanswered, Reach, start, later,
}
use rio_network.Worker.Safety.{all_answered, ref_count_exact, closing_IsSafe, one_request_each}

abbrev small_ring : Ring
small_ring = record {
  buffer = 0 ∷ 0 ∷ 0 ∷ 0 ∷ 0 ∷ 0 ∷ 0 ∷ 0 ∷ [];
  buf_size = 8;
  head_pos = 0;
  tail_pos = 0;
}

abbrev fresh : Session
fresh = record {
  id = 0;
  io_model = iocp;
  connect = false;
  socket = none;
  reason = no_reason;
  recv_buffer = small_ring;
  send_buffer = small_ring;
  thread_id = 0;
  peer_ip = [];
  peer_port = 0;
  target_ip = [];
  target_port = 0;
  ref_count = pos 0;
  recv_pending = false;
  send_pending = false;
  proc_pending = false;
  out = [];
}

fresh-IsFresh : IsFresh fresh
fresh-IsFresh = record { unconnected = refl; no_socket = refl; no_refs = refl; no_effects = refl }

-- A server that sends each packet back.
abbrev echo : Session → List ℕ → Callback
echo s p = record { requests = send (some p) (length p) pending ∷ []; throws = false }

abbrev begun : Life
begun = record { session = fresh; answered = unanswered }

abbrev opened : Life
opened = record begun { session = attach 5 true begun.session }

abbrev listening : Life
listening = record opened { session = post_recv pending opened.session }

abbrev told : Life
told = record {
  session = on_recv own 4 (4 ∷ 0 ∷ 7 ∷ 7 ∷ []) pending listening.session;
  answered = take_recv listening;
}

-- What the process worker leaves: the packet is dispatched and on its way back.
abbrev served : Session
served = elim (on_process echo 2 told.session) [ none ↦ told.session | some s ↦ s ]

abbrev sent : Life
sent = record { session = served; answered = take_proc told }

-- The peer hangs up: both requests fail.
abbrev hung_up : Life
hung_up = record { session = on_failed sent.session; answered = take_recv sent }

abbrev over : Life
over = record { session = on_failed hung_up.session; answered = take_send hung_up }

served_lem : on_process echo 2 told.session ≡ some served
unfolding on_process process_completion drain dispatch perform_all perform post_send marshall flush
    finish post_process on_recv completed_recv post_recv release_ref disconnect add_ref attach
    increment decrement clear get_data_length is_split get_first_data_offset get_first_data_len
    can_put_data check_split store put_data get_data pop_data packet_size is_completed_packet
    unmarshall
served_lem = refl

over-Reach : Reach own echo over
unfolding on_process process_completion drain dispatch perform_all perform post_send marshall flush
    finish post_process on_recv on_failed completed_recv post_recv release_ref disconnect add_ref
    attach increment decrement clear get_data_length is_split get_first_data_offset
    get_first_data_len can_put_data check_split store put_data get_data pop_data packet_size
    is_completed_packet unmarshall
over-Reach =
    later
      (later
        (later
          (later
            (later (later (start fresh fresh-IsFresh) (reopen begun 5 true refl))
              (receive opened pending))
            (recv listening 4 (4 ∷ 0 ∷ 7 ∷ 7 ∷ []) pending (omega arith)))
          (proc told 2 (omega arith) served_lem))
        (recv_failed sent (omega arith)))
      (send_failed hung_up (omega arith))

ref_count_exact_example :
    (n : ℕ) × (over.session.ref_count ≡ pos n)
    × (n + all_answered over.answered ≡ count_flag over.session.connect + posts over.session.out)
ref_count_exact_example = ref_count_exact over-Reach

closing_IsSafe_example :
    (over.session.ref_count ≡ pos 0)
    × (over.session.socket ≡ none)
    × (over.session.connect ≡ false)
    × (recv_posts over.session.out ≡ over.answered.recv)
    × (send_posts over.session.out ≡ over.answered.send)
    × (proc_posts over.session.out ≡ over.answered.proc)
unfolding on_process process_completion drain dispatch perform_all perform post_send marshall flush
    finish post_process on_recv on_failed completed_recv post_recv release_ref disconnect add_ref
    attach increment decrement clear get_data_length is_split get_first_data_offset
    get_first_data_len can_put_data check_split store put_data get_data pop_data packet_size
    is_completed_packet unmarshall
closing_IsSafe_example = closing_IsSafe over-Reach (omega arith)

one_request_each_example :
    (recv_posts over.session.out ≤ over.answered.recv + 1)
    × (send_posts over.session.out ≤ over.answered.send + 1)
    × (proc_posts over.session.out ≤ over.answered.proc + 1)
one_request_each_example = one_request_each over-Reach
