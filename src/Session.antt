-- ===== src/Session.antt =====
-- NetLib/NetLib/Session.h and Session.cpp, class Session: its state, and what it asks of the
-- system and of the Network that owns it. Each method is a function on this record, run to its
-- end as one step.
pub mod Refs
pub mod Recv
pub mod Send
pub mod Process
pub mod Counts
pub mod Alone
pub mod Untouched
pub mod Sending
pub mod Loop
pub mod Frames
pub mod Unmarshall
pub mod Deliver
pub mod Stream
mod Tests
use rio_network.Base.{◌+◌, ◌/◌, ℕ, ◌*◌, ◌^◌, Bool, true, false, Option, none, some, List, ℤ}
use rio_network.Ring.{Ring}

-- `enum eDISCONNECT_REASON`; `no_reason` is DISCONNECT_REASON_NONE.
pub data DisconnectReason : Type 0 where
  no_reason host_closed recv_postrecv_error send_postsend_error : DisconnectReason
  recv_putdata_error send_popdata_error remote_closed : DisconnectReason
  proc_postprocess_error shutdown_close : DisconnectReason

-- `enum ePROCESS_MODE`: who runs the packets, the user's thread or the library's.
pub data ProcessMode : Type 0 where
  user own : ProcessMode

-- The class behind `m_IOModel`.
pub data IoModel : Type 0 where
  iocp rio : IoModel

-- What the system answers to a send or a receive: done, SOCKET_ERROR with WSA_IO_PENDING, or any
-- other failure.
pub data Reply : Type 0 where
  done pending failure : Reply

abbrev pub max_packet_size : ℕ
max_packet_size = 1024 * 64

-- A call out of the object, newest first in `out`.
pub data Effect : Type 0 where
  -- a receive, a send (offset and size) or a process request that was accepted
  posted_recv : Effect
  posted_send : ℕ → ℕ → Effect
  posted_process : Effect
  -- `Attach` and `closesocket` of a handle, `AddClosingSession(this)`
  attached : ℕ → Effect
  closed_socket : ℕ → Effect
  closing : Effect
  -- the callbacks `OnDispatch` and `OnClose`
  dispatched : List ℕ → Effect
  on_close : Effect
  -- an `Attach` that the io model refused, which keeps the handle
  attach_failed : ℕ → Effect

pub record Session : Type 0 where
  pub id : ℕ
  pub io_model : IoModel
  pub connect : Bool
  -- `none` is INVALID_SOCKET
  pub socket : Option ℕ
  pub reason : DisconnectReason
  pub recv_buffer : Ring
  pub send_buffer : Ring
  pub thread_id : ℕ
  pub peer_ip : List ℕ
  pub peer_port : ℕ
  pub target_ip : List ℕ
  pub target_port : ℕ
  pub ref_count : ℤ
  pub recv_pending : Bool
  pub send_pending : Bool
  pub proc_pending : Bool
  pub out : List Effect

-- `m_Socket != INVALID_SOCKET && m_Connect`
abbrev pub is_connected : Session → Bool
is_connected s = elim s.socket [ none ↦ false | some _ ↦ s.connect ]

-- The result of `PostRecv` and `PostSend` of the two io models.
abbrev pub accepts : IoModel → Reply → Bool
accepts iocp done = true
accepts iocp pending = true
accepts iocp failure = false
accepts rio done = true
accepts rio _ = false

-- The result of `Attach` of the two io models: RIO creates a request queue.
abbrev pub can_attach : IoModel → Bool → Bool
can_attach iocp created = true
can_attach rio created = created

-- `GetBestIOBufferSize` of NetLib/NetLib/SocketUtils.cpp; the granularity is the system's.
abbrev pub get_best_io_buffer_size : ℕ → ℕ → ℕ
get_best_io_buffer_size granularity size = (size / granularity + 1) * granularity
