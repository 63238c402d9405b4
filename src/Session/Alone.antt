-- ===== src/Session/Alone.antt =====
-- The pending flags of Session.cpp, against the requests of a session that are on their way.
use rio_network.Base.{
  false, ℕ, ◌+◌, ◌≤◌, Bool, Option, none, some, List, arith, count_flag, ltb, ◌==◌, if_both,
}
use rio_network.Ring.{Ring, get_data_length}
use rio_network.Session.{
  is_connected, remote_closed, send_popdata_error, Session, Reply, DisconnectReason,
}
use rio_network.Session.Refs.{release_ref, disconnect, attach, close}
use rio_network.Session.Recv.{post_recv, completed_recv}
use rio_network.Session.Send.{marshall, flush, post_send, completed_send}
use rio_network.Session.Process.{post_process}
use rio_network.Session.Counts.{Answered, recv_posts, send_posts, proc_posts}

pub record Alone (a : Answered) (s : Session) : Type 0 where
  pub recv : recv_posts s.out ≤ a.recv + count_flag s.recv_pending
  pub send : send_posts s.out ≤ a.send + count_flag s.send_pending
  pub proc : proc_posts s.out ≤ a.proc + count_flag s.proc_pending

module _ {a : Answered} where
  pub release_ref-Alone : {s : Session} → Alone a s → Alone a (release_ref s)
  unfolding release_ref
  release_ref-Alone {s} c = ground arith

  pub disconnect-Alone :
      (why : DisconnectReason) {s : Session} → Alone a s → Alone a (disconnect why s)
  unfolding disconnect
  disconnect-Alone why {s} c = ground arith

  pub post_recv-Alone : (reply : Reply) {s : Session} → Alone a s → Alone a (post_recv reply s)
  unfolding post_recv
  post_recv-Alone reply {s} c = ground arith

  -- The receive that completes was taken up before.
  pub completed_recv-Alone :
      (transferred : ℕ) (bytes : List ℕ) {s : Session}
      → recv_posts s.out ≤ a.recv
      → Alone a s
      → Alone a (completed_recv transferred bytes s)
  unfolding completed_recv
  completed_recv-Alone transferred bytes {s} free c = ground arith

  pub marshall-Alone :
      (bytes : List ℕ) (len : ℕ) {s : Session} → Alone a s → Alone a (marshall bytes len s).0
  unfolding marshall
  marshall-Alone bytes len {s} c = ground arith

  pub flush-Alone : (reply : Reply) {s : Session} → Alone a s → Alone a (flush reply s).0
  unfolding flush
  flush-Alone reply {s} c = ground arith

  pub post_send-Alone :
      (bytes : Option (List ℕ)) (len : ℕ) (reply : Reply) {s : Session}
      → Alone a s
      → Alone a (post_send bytes len reply s).0
  unfolding post_send
  post_send-Alone none len reply c = flush-Alone reply c
  post_send-Alone (some bytes) len reply {s} c =
      let (s', done) = marshall bytes len s in
      let stored : Alone a s' = marshall-Alone bytes len c in
      if_both (λ (r : Session × Bool). Alone a r.0) done
        (if_both (λ (r : Session × Bool). Alone a r.0) (get_data_length s'.send_buffer == len)
          (flush-Alone reply stored) stored)
        stored

  pub completed_send-Alone :
      (transferred : ℕ) (reply : Reply) {s : Session}
      → send_posts s.out ≤ a.send
      → Alone a s
      → Alone a (completed_send transferred reply s).0
  unfolding completed_send
  completed_send-Alone transferred reply {s} free c =
      let unlocked : (ring : Ring)
          → Alone a (record s { send_buffer = ring; send_pending = false }) =
        λ ring. record { recv = c.recv; send = omega arith; proc = c.proc } in
      if_both (λ (r : Session × Bool). Alone a r.0) (is_connected s)
        (if_both (λ (r : Session × Bool). Alone a r.0) (transferred == 0)
          (disconnect-Alone remote_closed (unlocked s.send_buffer))
          (if_both (λ (r : Session × Bool). Alone a r.0)
            (ltb (get_data_length s.send_buffer) transferred)
            (disconnect-Alone send_popdata_error (unlocked _)) (flush-Alone reply (unlocked _))))
        (unlocked s.send_buffer)

  pub post_process-Alone : {s : Session} → Alone a s → Alone a (post_process s)
  unfolding post_process
  post_process-Alone {s} c = ground arith

  pub close-Alone : {s : Session} → Alone a s → Alone a (close s)
  unfolding close
  close-Alone {s} c = ground arith

  -- `Attach` clears the flags: nothing is on its way then.
  pub attach-Alone :
      (handle : ℕ) (created : Bool) {s : Session}
      → recv_posts s.out ≤ a.recv
      → send_posts s.out ≤ a.send
      → proc_posts s.out ≤ a.proc
      → Alone a s
      → Alone a (attach handle created s)
  unfolding attach
  attach-Alone handle created {s} r t p c = ground arith
