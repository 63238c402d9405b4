-- ===== src/Session/Process.antt =====
-- The packet processing of Session.cpp: `PostProcess`, `ProcessCompletion` and `ProcessPacket`.
-- The callback `OnDispatch` is the user's: it may send, flush and disconnect in any order that
-- depends on the session and the packet, ask the session for what it holds, and throw. It does not
-- call `ProcessPacket`, which in PROCESS_MODE_OWN answers -1 and does nothing, and in
-- PROCESS_MODE_USER would start the packet loop again inside of itself.
use rio_network.Base.{
  ℕ, zero, suc, ◌+◌, Bool, true, false, Option, none, some, List, [], ◌∷◌, if◌then◌else◌, ℤ, pos,
  negsuc,
}
use rio_network.Session.{
  Session, ProcessMode, user, own, Reply, posted_process, dispatched, host_closed,
  send_postsend_error, is_connected,
}
use rio_network.Session.Refs.{add_ref, disconnect}
use rio_network.Session.Recv.{is_completed_packet, nothing, thrown, packet, unmarshall}
use rio_network.Session.Send.{post_send_buffered, flush, post_send}

unfoldable pub post_process : Session → Session
unfolding add_ref
post_process s = elim (is_completed_packet s.recv_buffer) [
  | none ↦ s
  | some _ ↦
      if s.proc_pending
      then s
      else (if is_connected s
          then (let held = add_ref (record s { proc_pending = true }) in
              record held { out = posted_process ∷ held.out })
          else s)
]

-- A call of the user on its session, with what the system answers to a send that it makes.
pub data Request : Type 0 where
  send : Option (List ℕ) → ℕ → Reply → Request
  send_buffered : List ℕ → ℕ → Request
  flush_send : Reply → Request
  hang_up : Request

unfoldable pub perform : Request → Session → Session
perform (send bytes len reply) s = (post_send bytes len reply s).0
perform (send_buffered bytes len) s = (post_send_buffered bytes len s).0
perform (flush_send reply) s = (flush reply s).0
perform hang_up s = disconnect host_closed s

unfoldable pub perform_all : List Request → Session → Session
perform_all [] s = s
perform_all (r ∷ rs) s = perform_all rs (perform r s)

-- What a run of the callback does: its calls, and whether it ends by an exception.
pub record Callback : Type 0 where
  pub requests : List Request
  pub throws : Bool

-- The session after the loop, whether an exception ended it, and the number of packets.
pub record Drained : Type 0 where
  pub session : Session
  pub has_error : Bool
  pub count : ℕ

abbrev pub disconnect_on_error : Bool → Session → Session
disconnect_on_error has_error s = if has_error then disconnect send_postsend_error s else s

-- The end of `ProcessCompletion`, behind its loop.
unfoldable pub finish : Drained → Session
finish d =
    post_process (disconnect_on_error d.has_error (record d.session { proc_pending = false }))

module _ (on_dispatch : Session → List ℕ → Callback) where
  -- One packet goes to the callback.
  unfoldable pub dispatch : List ℕ → Session → Session × Bool
  dispatch bytes s =
      let s' = record s { out = dispatched bytes ∷ s.out } in
      let callback = on_dispatch s' bytes in (perform_all callback.requests s', callback.throws)

  -- `while ((Packet = UnmarshallRaw(...)) != nullptr) OnDispatch(...)`; `none` is a loop that has
  -- not ended when the fuel has.
  unfoldable pub drain : ℕ → ℕ → Session → Option Drained
  unfolding dispatch
  drain zero count s = none
  drain (suc fuel) count s = elim (unmarshall s.recv_buffer) [
    | nothing ↦ some (record { session = s; has_error = false; count = count })
    | thrown ↦ some (record { session = s; has_error = true; count = count })
    | packet bytes ring ↦
        let (s', threw) = dispatch bytes (record s { recv_buffer = ring }) in
        elim threw [
          | false ↦ drain fuel (count + 1) s'
          | true ↦ some (record { session = s'; has_error = true; count = count })
        ]
  ]

  unfoldable pub process_completion : ℕ → Session → Option Session
  unfolding finish
  process_completion fuel s = elim (drain fuel 0 s) [ none ↦ none | some d ↦ some (finish d) ]

  -- `ProcessPacket()` of the user's own thread, with its result.
  unfoldable pub process_packet : ProcessMode → ℕ → Session → Option (Session × ℤ)
  process_packet own fuel s = some (s, negsuc 0)
  process_packet user fuel s = elim (drain fuel 0 s) [
    | none ↦ none
    | some d ↦ some (disconnect_on_error d.has_error d.session, pos d.count)
  ]
