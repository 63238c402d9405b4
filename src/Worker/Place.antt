-- ===== src/Worker/Place.antt =====
-- What the methods of a session of Session.cpp leave alone, `Attach` and `Close` excepted: its id,
-- its thread, how often it was attached and closed, and how often `Attach` failed.
use rio_network.Base.{
  ℕ, ◌≤◌, ◌≡◌, refl, ap, ◌∙◌, Bool, Option, none, some, List, [], ◌∷◌, arith, ltb, ◌==◌, if_both,
}
use rio_network.Ring.{get_data_length}
use rio_network.Session.{
  Session, ProcessMode, user, own, DisconnectReason, Reply, is_connected, host_closed,
  remote_closed, send_popdata_error,
}
use rio_network.Session.Counts.{closings, on_closes, attaches, fails}
use rio_network.Session.Refs.{release_ref, disconnect}
use rio_network.Session.Recv.{post_recv, completed_recv}
use rio_network.Session.Send.{marshall, flush, post_send, post_send_buffered, completed_send}
use rio_network.Session.Process.{
  Request, send, send_buffered, flush_send, hang_up, perform, perform_all, post_process,
}
use rio_network.Worker.{on_recv, on_send}

pub record SamePlace (s s' : Session) : Type 0 where
  pub id : s'.id ≡ s.id
  pub thread : s'.thread_id ≡ s.thread_id
  pub grows : closings s.out ≤ closings s'.out
  pub closed : on_closes s'.out ≡ on_closes s.out
  pub attached : attaches s'.out ≡ attaches s.out
  pub failed : fails s'.out ≡ fails s.out

-- A change that calls nobody.
pub quiet :
    {s s' : Session} → s'.id ≡ s.id → s'.thread_id ≡ s.thread_id → s'.out ≡ s.out → SamePlace s s'
quiet i t o = record {
  id = i;
  thread = t;
  grows = omega (arith, ap closings o);
  closed = ap on_closes o;
  attached = ap attaches o;
  failed = ap fails o;
}

pub join : {s s' s'' : Session} → SamePlace s s' → SamePlace s' s'' → SamePlace s s''
join a b = record {
  id = b.id ∙ a.id;
  thread = b.thread ∙ a.thread;
  grows = omega (arith, a.grows, b.grows);
  closed = b.closed ∙ a.closed;
  attached = b.attached ∙ a.attached;
  failed = b.failed ∙ a.failed;
}

pub release_ref-SamePlace : (s : Session) → SamePlace s (release_ref s)
unfolding release_ref
release_ref-SamePlace s = ground arith

pub disconnect-SamePlace : (why : DisconnectReason) (s : Session) → SamePlace s (disconnect why s)
unfolding disconnect
disconnect-SamePlace why s = ground arith

pub post_recv-SamePlace : (reply : Reply) (s : Session) → SamePlace s (post_recv reply s)
unfolding post_recv
post_recv-SamePlace reply s = ground arith

completed_recv-SamePlace :
    (n : ℕ) (bytes : List ℕ) (s : Session) → SamePlace s (completed_recv n bytes s)
unfolding completed_recv
completed_recv-SamePlace n bytes s = ground arith

marshall-SamePlace : (bytes : List ℕ) (len : ℕ) (s : Session) → SamePlace s (marshall bytes len s).0
unfolding marshall
marshall-SamePlace bytes len s = ground arith

flush-SamePlace : (reply : Reply) (s : Session) → SamePlace s (flush reply s).0
unfolding flush
flush-SamePlace reply s = ground arith

post_send-SamePlace :
    (bytes : Option (List ℕ)) (len : ℕ) (reply : Reply) (s : Session)
    → SamePlace s (post_send bytes len reply s).0
unfolding post_send
post_send-SamePlace none len reply s = flush-SamePlace reply s
post_send-SamePlace (some bytes) len reply s =
    let (s', done) = marshall bytes len s in
    let stored : SamePlace s s' = marshall-SamePlace bytes len s in
    if_both (λ (r : Session × Bool). SamePlace s r.0) done
      (if_both (λ (r : Session × Bool). SamePlace s r.0) (get_data_length s'.send_buffer == len)
        (join stored (flush-SamePlace reply s')) stored)
      stored

completed_send-SamePlace :
    (n : ℕ) (reply : Reply) (s : Session) → SamePlace s (completed_send n reply s).0
unfolding completed_send
completed_send-SamePlace n reply s =
    if_both (λ (r : Session × Bool). SamePlace s r.0) (is_connected s)
      (if_both (λ (r : Session × Bool). SamePlace s r.0) (n == 0)
        (join (quiet refl refl refl) (disconnect-SamePlace remote_closed _))
        (if_both (λ (r : Session × Bool). SamePlace s r.0) (ltb (get_data_length s.send_buffer) n)
          (join (quiet refl refl refl) (disconnect-SamePlace send_popdata_error _))
          (join (quiet refl refl refl) (flush-SamePlace reply _))))
      (quiet refl refl refl)

pub post_process-SamePlace : (s : Session) → SamePlace s (post_process s)
unfolding post_process
post_process-SamePlace s = ground arith

pub perform-SamePlace : (r : Request) (s : Session) → SamePlace s (perform r s)
unfolding perform
perform-SamePlace (send bytes len reply) s = post_send-SamePlace bytes len reply s
perform-SamePlace (send_buffered bytes len) s =
    unfold post_send_buffered in marshall-SamePlace bytes len s
perform-SamePlace (flush_send reply) s = flush-SamePlace reply s
perform-SamePlace hang_up s = disconnect-SamePlace host_closed s

pub perform_all-SamePlace : (rs : List Request) (s : Session) → SamePlace s (perform_all rs s)
unfolding perform_all
perform_all-SamePlace [] s = quiet refl refl refl
perform_all-SamePlace (r ∷ rs) s =
    join (perform-SamePlace r s) (perform_all-SamePlace rs (perform r s))

pub on_recv-SamePlace :
    (mode : ProcessMode) (n : ℕ) (bytes : List ℕ) (reply : Reply) (s : Session)
    → SamePlace s (on_recv mode n bytes reply s)
unfolding on_recv
on_recv-SamePlace user n bytes reply s =
    join (completed_recv-SamePlace n bytes s)
      (join (post_recv-SamePlace reply _) (release_ref-SamePlace _))
on_recv-SamePlace own n bytes reply s =
    join (completed_recv-SamePlace n bytes s) (
      join (post_process-SamePlace _)
        (join (post_recv-SamePlace reply _) (release_ref-SamePlace _)))

pub on_send-SamePlace : (n : ℕ) (reply : Reply) (s : Session) → SamePlace s (on_send n reply s)
unfolding on_send
on_send-SamePlace n reply s = join (completed_send-SamePlace n reply s) (release_ref-SamePlace _)
