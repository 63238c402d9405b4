-- ===== src/Session/Untouched.antt =====
-- What the user's calls on a session of Session.cpp leave alone: the receive buffer, what was
-- delivered and what was asked of the process workers.
use rio_network.Base.{
  ℕ, ◌≡◌, refl, ◌∙◌, Option, none, some, List, [], ◌∷◌, ◌++◌, arith, Bool, false, ◌==◌, if_both,
}
use rio_network.Ring.{get_data_length}
use rio_network.Session.{Session, DisconnectReason, Effect, dispatched, Reply, host_closed}
use rio_network.Session.Refs.{disconnect}
use rio_network.Session.Send.{marshall, post_send_buffered, flush, post_send}
use rio_network.Session.Process.{
  Request, send, send_buffered, flush_send, hang_up, perform, perform_all, post_process, finish,
  Drained,
}
use rio_network.Session.Counts.{proc_posts}

-- The packets that went to `OnDispatch`, oldest first.
abbrev pub delivered : List Effect → List (List ℕ)
delivered [] = []
delivered (dispatched p ∷ out) = delivered out ++ (p ∷ [])
delivered (_ ∷ out) = delivered out

pub record Untouched (s s' : Session) : Type 0 where
  pub buffer : s'.recv_buffer ≡ s.recv_buffer
  pub packets : delivered s'.out ≡ delivered s.out
  pub requests : proc_posts s'.out ≡ proc_posts s.out

pub same-Untouched : (s : Session) → Untouched s s
same-Untouched s = record { buffer = refl; packets = refl; requests = refl }

pub join-Untouched : {s s' s'' : Session} → Untouched s s' → Untouched s' s'' → Untouched s s''
join-Untouched a b = record {
  buffer = b.buffer ∙ a.buffer;
  packets = b.packets ∙ a.packets;
  requests = b.requests ∙ a.requests;
}

pub disconnect-Untouched : (why : DisconnectReason) (s : Session) → Untouched s (disconnect why s)
unfolding disconnect
disconnect-Untouched why s = ground arith

marshall-Untouched : (bytes : List ℕ) (len : ℕ) (s : Session) → Untouched s (marshall bytes len s).0
unfolding marshall
marshall-Untouched bytes len s = ground arith

flush-Untouched : (reply : Reply) (s : Session) → Untouched s (flush reply s).0
unfolding flush
flush-Untouched reply s = ground arith

post_send-Untouched :
    (bytes : Option (List ℕ)) (len : ℕ) (reply : Reply) (s : Session)
    → Untouched s (post_send bytes len reply s).0
unfolding post_send
post_send-Untouched none len reply s = flush-Untouched reply s
post_send-Untouched (some bytes) len reply s =
    let (s', done) = marshall bytes len s in
    let stored : Untouched s s' = marshall-Untouched bytes len s in
    if_both (λ (r : Session × Bool). Untouched s r.0) done
      (if_both (λ (r : Session × Bool). Untouched s r.0) (get_data_length s'.send_buffer == len)
        (join-Untouched stored (flush-Untouched reply s')) stored)
      stored

pub perform-Untouched : (r : Request) (s : Session) → Untouched s (perform r s)
unfolding perform
perform-Untouched (send bytes len reply) s = post_send-Untouched bytes len reply s
perform-Untouched (send_buffered bytes len) s =
    unfold post_send_buffered in marshall-Untouched bytes len s
perform-Untouched (flush_send reply) s = flush-Untouched reply s
perform-Untouched hang_up s = disconnect-Untouched host_closed s

pub perform_all-Untouched : (rs : List Request) (s : Session) → Untouched s (perform_all rs s)
unfolding perform_all
perform_all-Untouched [] s = same-Untouched s
perform_all-Untouched (r ∷ rs) s =
    join-Untouched (perform-Untouched r s) (perform_all-Untouched rs (perform r s))

post_process_lem :
    (s : Session)
    → ((post_process s).recv_buffer ≡ s.recv_buffer)
      × (delivered (post_process s).out ≡ delivered s.out)
unfolding post_process
post_process_lem s = ground arith

-- The end of `ProcessCompletion`, when no exception was caught.
pub finish_lem :
    (d : Drained)
    → d.has_error ≡ false
    → ((finish d).recv_buffer ≡ d.session.recv_buffer)
      × (delivered (finish d).out ≡ delivered d.session.out)
unfolding finish
finish_lem d e = rw e (post_process_lem (record d.session { proc_pending = false }))
