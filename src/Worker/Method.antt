-- ===== src/Worker/Method.antt =====
-- The steps of a session of NetLib/NetLib that are calls of its methods: all but `Attach`, which only
-- `AllocateSession` calls, and `Close`, which only `ReleaseSession` calls.
use rio_network.Base.{ℕ, ◌≡◌, refl, subst, Bool, true, false, Option, none, some, List, arith}
use rio_network.Session.{
  Session, ProcessMode, remote_closed, proc_postprocess_error, send_postsend_error,
}
use rio_network.Session.Process.{Callback, Drained, finish, disconnect_on_error, process_completion}
use rio_network.Session.Loop.{Stable, process_completion-keeps, process_packet-keeps}
use rio_network.Worker.{on_failed, on_process, on_process_failed}
use rio_network.Worker.Life.{
  Life, Step, request, packets, receive, recv, send, proc, recv_failed, send_failed, proc_failed,
  shut, reopen,
}
use rio_network.Worker.Place.{
  SamePlace, quiet, join, release_ref-SamePlace, disconnect-SamePlace, post_recv-SamePlace,
  post_process-SamePlace, perform-SamePlace, on_recv-SamePlace, on_send-SamePlace,
}

SamePlace-Stable : (s : Session) → Stable (SamePlace s)
SamePlace-Stable s = record {
  on_request = λ r s' h. join h (perform-SamePlace r s');
  on_packet = λ bytes ring s' h. join h (record {
    id = refl;
    thread = refl;
    grows = omega arith;
    closed = refl;
    attached = refl;
    failed = refl;
  });
}

on_error-SamePlace : (e : Bool) (s : Session) → SamePlace s (disconnect_on_error e s)
on_error-SamePlace true s = disconnect-SamePlace send_postsend_error s
on_error-SamePlace false s = quiet refl refl refl

finish-SamePlace : (d : Drained) → SamePlace d.session (finish d)
unfolding finish
finish-SamePlace d =
    join (join (quiet refl refl refl) (on_error-SamePlace d.has_error _)) (post_process-SamePlace _)

on_failed-SamePlace : (s : Session) → SamePlace s (on_failed s)
unfolding on_failed
on_failed-SamePlace s = join (disconnect-SamePlace remote_closed s) (release_ref-SamePlace _)

on_process_failed-SamePlace : (s : Session) → SamePlace s (on_process_failed s)
unfolding on_process_failed
on_process_failed-SamePlace s =
    join (disconnect-SamePlace proc_postprocess_error s) (release_ref-SamePlace _)

on_process-SamePlace :
    (on_dispatch : Session → List ℕ → Callback) (fuel : ℕ) (s : Session) {s' : Session}
    → on_process on_dispatch fuel s ≡ some s'
    → SamePlace s s'
unfolding on_process
on_process-SamePlace on_dispatch fuel s {s'} e = ended (process_completion on_dispatch fuel s) refl
  where
    ended : (o : Option Session) → process_completion on_dispatch fuel s ≡ o → SamePlace s s'
    ended none q = absurd (cc)
    ended (some t) q = subst (SamePlace s) (cc) (
        join
          (process_completion-keeps on_dispatch (SamePlace s) (SamePlace-Stable s) (SamePlace s)
            (λ d h. join h (finish-SamePlace d)) fuel s q (quiet refl refl refl))
          (release_ref-SamePlace t))

module _ {mode : ProcessMode} {on_dispatch : Session → List ℕ → Callback} where
  abbrev pub is_method : {l l' : Life} → Step mode on_dispatch l l' → Bool
  is_method (shut _ _) = false
  is_method (reopen _ _ _ _) = false
  is_method _ = true

  pub Step-SamePlace :
      {l l' : Life} (st : Step mode on_dispatch l l')
      → is_method st ≡ true
      → SamePlace l.session l'.session
  Step-SamePlace (request l r) m = perform-SamePlace r l.session
  Step-SamePlace (packets l fuel e) m =
      process_packet-keeps on_dispatch (SamePlace l.session) (SamePlace-Stable l.session)
        (λ d h. join h (on_error-SamePlace d.has_error d.session)) mode fuel l.session e
        (quiet refl refl refl)
  Step-SamePlace (receive l reply) m = post_recv-SamePlace reply l.session
  Step-SamePlace (recv l transferred bytes reply o) m =
      on_recv-SamePlace mode transferred bytes reply l.session
  Step-SamePlace (send l transferred reply o) m = on_send-SamePlace transferred reply l.session
  Step-SamePlace (proc l fuel o e) m = on_process-SamePlace on_dispatch fuel l.session e
  Step-SamePlace (recv_failed l o) m = on_failed-SamePlace l.session
  Step-SamePlace (send_failed l o) m = on_failed-SamePlace l.session
  Step-SamePlace (proc_failed l o) m = on_process_failed-SamePlace l.session
  Step-SamePlace (shut l listed) m = absurd (cc)
  Step-SamePlace (reopen l handle created free) m = absurd (cc)
