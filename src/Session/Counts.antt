-- ===== src/Session/Counts.antt =====
-- Who holds a session of Session.cpp: every reference is held by the connection itself, by a
-- request that the system has not answered, or by the handler that runs.
use rio_network.Base.{
  refl, ltb, ◌==◌, if_both, ℕ, zero, suc, ◌+◌, ◌≤◌, ◌<◌, ◌≡◌, Bool, true, false, Option, none, some,
  List, [], ◌∷◌, arith, ℤ, pos, pos_part, neg_part, count_flag,
}
use rio_network.Ring.{get_data_length}
use rio_network.Session.{
  remote_closed, send_popdata_error, is_connected, Session, Reply, Effect, posted_recv, posted_send,
  posted_process, attached, attach_failed, closing, on_close, DisconnectReason,
}
use rio_network.Session.Refs.{release_ref, disconnect, attach, close}
use rio_network.Session.Recv.{post_recv, completed_recv}
use rio_network.Session.Send.{marshall, flush, post_send, completed_send}
use rio_network.Session.Process.{post_process}

-- How many receives, sends and process requests the system accepted.
abbrev pub recv_posts : List Effect → ℕ
recv_posts [] = 0
recv_posts (posted_recv ∷ out) = suc (recv_posts out)
recv_posts (_ ∷ out) = recv_posts out

abbrev pub send_posts : List Effect → ℕ
send_posts [] = 0
send_posts (posted_send _ _ ∷ out) = suc (send_posts out)
send_posts (_ ∷ out) = send_posts out

abbrev pub proc_posts : List Effect → ℕ
proc_posts [] = 0
proc_posts (posted_process ∷ out) = suc (proc_posts out)
proc_posts (_ ∷ out) = proc_posts out

abbrev pub posts : List Effect → ℕ
posts out = recv_posts out + send_posts out + proc_posts out

-- How often the session went to the closing list.
abbrev pub closings : List Effect → ℕ
closings [] = 0
closings (closing ∷ out) = suc (closings out)
closings (_ ∷ out) = closings out

abbrev pub attaches : List Effect → ℕ
attaches [] = 0
attaches (attached _ ∷ out) = suc (attaches out)
attaches (_ ∷ out) = attaches out

abbrev pub is_held : ℤ → ℕ
is_held (pos zero) = 0
is_held _ = 1

abbrev pub on_closes : List Effect → ℕ
on_closes [] = 0
on_closes (on_close ∷ out) = suc (on_closes out)
on_closes (_ ∷ out) = on_closes out

-- How often the io model refused `Attach`.
abbrev pub fails : List Effect → ℕ
fails [] = 0
fails (attach_failed _ ∷ out) = suc (fails out)
fails (_ ∷ out) = fails out

-- How many of the accepted requests of each kind a worker has taken up.
pub record Answered : Type 0 where
  pub recv : ℕ
  pub send : ℕ
  pub proc : ℕ

abbrev pub has_socket : Option ℕ → Bool
has_socket none = false
has_socket (some _) = true

-- `held` references belong to the handler that runs.
pub record Counted (a : Answered) (held : ℕ) (s : Session) : Type 0 where
  pub sign : neg_part s.ref_count ≡ 0
  pub count :
      pos_part s.ref_count + a.recv + a.send + a.proc ≡ count_flag s.connect + posts s.out + held
  pub recv_answered : a.recv ≤ recv_posts s.out
  pub send_answered : a.send ≤ send_posts s.out
  pub proc_answered : a.proc ≤ proc_posts s.out
  pub lives : closings s.out + is_held s.ref_count ≡ attaches s.out
  pub queued : closings s.out + is_held s.ref_count ≤ on_closes s.out + 1
  pub closed : on_closes s.out ≤ closings s.out
  pub open_socket : count_flag (has_socket s.socket) ≡ count_flag s.connect + fails s.out
  pub once : attaches s.out + fails s.out ≤ on_closes s.out + 1

-- The parts of a session that `Counted` reads.
abbrev pub books : Session → ℤ × Bool × Option ℕ × List Effect
books s = (s.ref_count, s.connect, s.socket, s.out)

module _ {a : Answered} {h : ℕ} where
  pub same_books : {s s' : Session} → Counted a h s → books s ≡ books s' → Counted a h s'
  same_books {s} {s'} c e = ground (arith, c, e)

  pub release_ref-Counted : {s : Session} → Counted a (suc h) s → Counted a h (release_ref s)
  unfolding release_ref
  release_ref-Counted {s} c = ground arith

  pub disconnect-Counted :
      (why : DisconnectReason) {s : Session} → Counted a h s → Counted a h (disconnect why s)
  unfolding disconnect
  disconnect-Counted why {s} c = ground arith

  pub post_recv-Counted :
      (reply : Reply) {s : Session} → Counted a h s → Counted a h (post_recv reply s)
  unfolding post_recv
  post_recv-Counted reply {s} c = ground arith

  pub completed_recv-Counted :
      (transferred : ℕ) (bytes : List ℕ) {s : Session}
      → Counted a h s
      → Counted a h (completed_recv transferred bytes s)
  unfolding completed_recv
  completed_recv-Counted transferred bytes {s} c = ground arith

  pub marshall-Counted :
      (bytes : List ℕ) (len : ℕ) {s : Session}
      → Counted a h s
      → Counted a h (marshall bytes len s).0
  unfolding marshall
  marshall-Counted bytes len {s} c = ground arith

  pub flush-Counted : (reply : Reply) {s : Session} → Counted a h s → Counted a h (flush reply s).0
  unfolding flush
  flush-Counted reply {s} c = ground arith

  pub completed_send-Counted :
      (transferred : ℕ) (reply : Reply) {s : Session}
      → Counted a h s
      → Counted a h (completed_send transferred reply s).0
  unfolding completed_send
  completed_send-Counted transferred reply {s} c =
      if_both (λ (r : Session × Bool). Counted a h r.0) (is_connected s)
        (if_both (λ (r : Session × Bool). Counted a h r.0) (transferred == 0)
          (disconnect-Counted remote_closed (same_books c refl))
          (if_both (λ (r : Session × Bool). Counted a h r.0)
            (ltb (get_data_length s.send_buffer) transferred)
            (disconnect-Counted send_popdata_error (same_books c refl))
            (flush-Counted reply (same_books c refl))))
        (same_books c refl)

  pub post_process-Counted : {s : Session} → Counted a h s → Counted a h (post_process s)
  unfolding post_process
  post_process-Counted {s} c = ground arith

  pub post_send-Counted :
      (bytes : Option (List ℕ)) (len : ℕ) (reply : Reply) {s : Session}
      → Counted a h s
      → Counted a h (post_send bytes len reply s).0
  unfolding post_send
  post_send-Counted none len reply c = flush-Counted reply c
  post_send-Counted (some bytes) len reply {s} c =
      let (s', done) = marshall bytes len s in
      let stored : Counted a h s' = marshall-Counted bytes len c in
      if_both (λ (r : Session × Bool). Counted a h r.0) done
        (if_both (λ (r : Session × Bool). Counted a h r.0) (get_data_length s'.send_buffer == len)
          (flush-Counted reply stored) stored)
        stored

-- The free session that `Attach` is called on was closed as often as it was attached, and no `Attach`
-- of it has failed.
pub attach-Counted :
    (handle : ℕ) (created : Bool) {a : Answered} {s : Session}
    → on_closes s.out ≡ attaches s.out + fails s.out
    → Counted a 0 s
    → Counted a 0 (attach handle created s)
unfolding attach
attach-Counted handle created {a} {s} free c = ground arith

-- `Close` is called on a session of the closing list.
pub close-Counted :
    {a : Answered} {s : Session}
    → on_closes s.out < closings s.out
    → Counted a 0 s
    → Counted a 0 (close s)
unfolding close
close-Counted {a} {s} listed c = ground arith
