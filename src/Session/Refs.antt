-- ===== src/Session/Refs.antt =====
-- The life of a session of Session.cpp: `AddRef`, `ReleaseRef`, `Attach`, `Disconnect`, `Close`.
use rio_network.Base.{
  ℕ, zero, ◌^◌, ◌%◌, Bool, true, false, Option, none, some, List, [], ◌∷◌, if◌then◌else◌, ℤ, pos,
  increment, decrement,
}
use rio_network.Ring.{create, clear}
use rio_network.Session.{
  IoModel, max_packet_size, get_best_io_buffer_size, Session, DisconnectReason, no_reason, Effect,
  attached, attach_failed, closed_socket, closing, on_close, is_connected, can_attach,
}

-- The constructor. The memory of the rings comes from the system, which allocates in units of
-- `granularity`; `unset_reason` and `unset_thread` are what stood in the two fields that it leaves
-- unset.
unfoldable pub new_session : IoModel → ℕ → List ℕ → List ℕ → DisconnectReason → ℕ → ℕ → Session
unfolding create
new_session io_model granularity recv_memory send_memory unset_reason unset_thread id = record {
  id = id;
  io_model = io_model;
  connect = false;
  socket = none;
  reason = unset_reason;
  recv_buffer = create recv_memory (get_best_io_buffer_size granularity max_packet_size);
  send_buffer = create send_memory (get_best_io_buffer_size granularity max_packet_size);
  thread_id = unset_thread;
  peer_ip = [];
  peer_port = 0;
  target_ip = [];
  target_port = 0;
  ref_count = pos 0;
  recv_pending = false;
  send_pending = false;
  proc_pending = false;
  out = [];
}

unfoldable pub add_ref : Session → Session
unfolding increment
add_ref s = record s { ref_count = increment s.ref_count }

abbrev is_zero : ℤ → Bool
is_zero (pos zero) = true
is_zero _ = false

-- The session that drops the last reference puts itself on the closing list.
unfoldable pub release_ref : Session → Session
unfolding decrement
release_ref s =
    let count = decrement s.ref_count in
    record s { ref_count = count; out = if is_zero count then closing ∷ s.out else s.out }

-- The first reason stays.
abbrev first_reason : DisconnectReason → DisconnectReason → DisconnectReason
first_reason no_reason reason = reason
first_reason earlier _ = earlier

abbrev close_handle : Option ℕ → List Effect → List Effect
close_handle none out = out
close_handle (some handle) out = closed_socket handle ∷ out

unfoldable pub disconnect : DisconnectReason → Session → Session
unfolding release_ref
disconnect reason s =
    if is_connected s
    then release_ref (record s {
      reason = first_reason s.reason reason;
      out = close_handle s.socket s.out;
      socket = none;
      connect = false;
    })
    else s

-- `created` is whether the system gave RIO its request queue.
unfoldable pub attach : ℕ → Bool → Session → Session
unfolding add_ref
attach handle created s =
    if can_attach s.io_model created
    then add_ref (record s {
      socket = some handle;
      recv_buffer = clear s.recv_buffer;
      send_buffer = clear s.send_buffer;
      ref_count = pos 0;
      recv_pending = false;
      send_pending = false;
      proc_pending = false;
      peer_ip = [];
      target_ip = [];
      peer_port = 0;
      target_port = 0;
      connect = true;
      reason = no_reason;
      out = attached handle ∷ s.out;
    })
    else record s { socket = some handle; out = attach_failed handle ∷ s.out }

unfoldable pub close : Session → Session
close s = record s {
  recv_buffer = clear s.recv_buffer;
  send_buffer = clear s.send_buffer;
  peer_ip = [];
  target_ip = [];
  peer_port = 0;
  target_port = 0;
  out = on_close ∷ s.out;
}

unfoldable pub set_peer_ip : List ℕ → ℕ → Session → Session
set_peer_ip ip port s = record s { peer_ip = ip; peer_port = port % 2 ^ 16 }

unfoldable pub set_target_ip : List ℕ → ℕ → Session → Session
set_target_ip ip port s = record s { target_ip = ip; target_port = port % 2 ^ 16 }

unfoldable pub set_thread_id : ℕ → Session → Session
set_thread_id thread s = record s { thread_id = thread }
