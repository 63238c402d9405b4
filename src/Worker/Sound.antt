-- ===== src/Worker/Sound.antt =====
-- The invariant of a session of NetLib/NetLib over any order of calls and answers.
use rio_network.Base.{
  ℕ, ◌+◌, ◌≤◌, ◌<◌, ◌≡◌, refl, false, Option, none, some, List, pos, arith, subst,
}
use rio_network.Session.{
  Session, ProcessMode, user, own, Reply, DisconnectReason, remote_closed, proc_postprocess_error,
}
use rio_network.Session.Refs.{release_ref, disconnect}
use rio_network.Session.Process.{Callback, process_completion}
use rio_network.Session.Counts
use rio_network.Session.Counts.{
  Answered, Counted, recv_posts, send_posts, proc_posts, closings, on_closes, attaches, fails,
}
use rio_network.Session.Alone
use rio_network.Session.Alone.{Alone}
use rio_network.Session.Loop.{
  Counted-Stable, Alone-Stable, proc_posts-Stable, both-Stable, process_completion-keeps,
  process_packet-keeps, finish-Counted, finish-Alone, disconnect_on_error-Counted,
  disconnect_on_error-Alone,
}
use rio_network.Worker.{on_recv, on_send, on_failed, on_process, on_process_failed}
use rio_network.Worker.Life.{
  Life, Step, request, packets, receive, recv, send, proc, recv_failed, send_failed, proc_failed,
  shut, reopen, IsFresh, Reach, start, later, take_recv, take_send, take_proc, unanswered,
}

pub record Sound (l : Life) : Type 0 where
  pub counted : Counted l.answered 0 l.session
  pub alone : Alone l.answered l.session

module _ {l : Life} (h : Sound l) where
  -- The reference of the request that a worker takes up becomes the worker's own.
  taken_recv :
      l.answered.recv < recv_posts l.session.out
      → Counted (take_recv l) 1 l.session
        × Alone (take_recv l) l.session
        × (recv_posts l.session.out ≤ l.answered.recv + 1)
  taken_recv open_request = ground (arith, h.counted, h.alone)

  taken_send :
      l.answered.send < send_posts l.session.out
      → Counted (take_send l) 1 l.session
        × Alone (take_send l) l.session
        × (send_posts l.session.out ≤ l.answered.send + 1)
  taken_send open_request = ground (arith, h.counted, h.alone)

  taken_proc :
      l.answered.proc < proc_posts l.session.out
      → Counted (take_proc l) 1 l.session
        × Alone (take_proc l) l.session
        × (proc_posts l.session.out ≤ l.answered.proc + 1)
  taken_proc open_request = ground (arith, h.counted, h.alone)

-- With no reference left and no `Attach` that failed, every request is answered and the socket is closed.
pub unheld :
    {a : Answered} {s : Session}
    → Counted a 0 s
    → Counts.is_held s.ref_count ≡ 0
    → fails s.out ≡ 0
    → (recv_posts s.out ≤ a.recv)
      × (send_posts s.out ≤ a.send)
      × (proc_posts s.out ≤ a.proc)
      × (s.ref_count ≡ pos 0)
      × (s.connect ≡ false)
      × (s.socket ≡ none)
unheld {a} {s} c z k = ground (arith, c, k)

-- A worker's last act.
released :
    {a : Answered} {s : Session}
    → Counted a 1 s
    → Alone a s
    → Sound (record { session = release_ref s; answered = a })
released c p = record { counted = Counts.release_ref-Counted c; alone = Alone.release_ref-Alone p }

hung_up :
    {a : Answered} {s : Session} (why : DisconnectReason)
    → Counted a 1 s
    → Alone a s
    → Sound (record { session = release_ref (disconnect why s); answered = a })
hung_up why c p = released (Counts.disconnect-Counted why c) (Alone.disconnect-Alone why p)

on_recv-Sound :
    (mode : ProcessMode) (transferred : ℕ) (bytes : List ℕ) (reply : Reply) {a : Answered}
    {s : Session}
    → Counted a 1 s
    → Alone a s
    → recv_posts s.out ≤ a.recv
    → Sound (record { session = on_recv mode transferred bytes reply s; answered = a })
unfolding on_recv
on_recv-Sound user transferred bytes reply c p free =
    released (Counts.post_recv-Counted reply (Counts.completed_recv-Counted transferred bytes c))
      (Alone.post_recv-Alone reply (Alone.completed_recv-Alone transferred bytes free p))
on_recv-Sound own transferred bytes reply c p free =
    released
      (Counts.post_recv-Counted reply
        (Counts.post_process-Counted (Counts.completed_recv-Counted transferred bytes c)))
      (Alone.post_recv-Alone reply
        (Alone.post_process-Alone (Alone.completed_recv-Alone transferred bytes free p)))

module _ (mode : ProcessMode) (on_dispatch : Session → List ℕ → Callback) where
  on_process-Sound :
      (fuel : ℕ) {a : Answered} {s s' : Session}
      → Counted a 1 s
      → Alone a s
      → proc_posts s.out ≤ a.proc
      → on_process on_dispatch fuel s ≡ some s'
      → Sound (record { session = s'; answered = a })
  unfolding on_process
  on_process-Sound fuel {a} {s} {s'} c p free e = ended (process_completion on_dispatch fuel s) refl
    where
      ended :
          (o : Option Session)
          → process_completion on_dispatch fuel s ≡ o
          → Sound (record { session = s'; answered = a })
      ended none q = absurd (cc)
      ended (some t) q =
          subst (λ u. Sound (record { session = u; answered = a })) (cc)
            (released
              (process_completion-keeps on_dispatch (Counted a 1) (Counted-Stable a 1) (Counted a 1)
                finish-Counted fuel s q c)
              (process_completion-keeps on_dispatch (λ u. Alone a u × (proc_posts u.out ≤ a.proc))
                (both-Stable (Alone-Stable a) (proc_posts-Stable a.proc)) (Alone a)
                (λ d k. finish-Alone d k.0 k.1) fuel s q (p, free)))

  pub Step-Sound : {l l' : Life} → Step mode on_dispatch l l' → Sound l → Sound l'
  Step-Sound (request l r) h = record {
    counted = (Counted-Stable l.answered 0).on_request r l.session h.counted;
    alone = (Alone-Stable l.answered).on_request r l.session h.alone;
  }
  Step-Sound (packets l fuel e) h = record {
    counted =
        process_packet-keeps on_dispatch _ (Counted-Stable l.answered 0)
          (λ d. disconnect_on_error-Counted d.has_error) mode fuel l.session e h.counted;
    alone =
        process_packet-keeps on_dispatch _ (Alone-Stable l.answered)
          (λ d. disconnect_on_error-Alone d.has_error) mode fuel l.session e h.alone;
  }
  Step-Sound (receive l reply) h = record {
    counted = Counts.post_recv-Counted reply h.counted;
    alone = Alone.post_recv-Alone reply h.alone;
  }
  Step-Sound (recv l transferred bytes reply o) h =
      let (c, p, free) = taken_recv h o in on_recv-Sound mode transferred bytes reply c p free
  Step-Sound (send l transferred reply o) h =
      let (c, p, free) = taken_send h o in
      unfold on_send in
      released (Counts.completed_send-Counted transferred reply c)
        (Alone.completed_send-Alone transferred reply free p)
  Step-Sound (proc l fuel o e) h =
      let (c, p, free) = taken_proc h o in on_process-Sound fuel c p free e
  Step-Sound (recv_failed l o) h =
      let (c, p, free) = taken_recv h o in unfold on_failed in hung_up remote_closed c p
  Step-Sound (send_failed l o) h =
      let (c, p, free) = taken_send h o in unfold on_failed in hung_up remote_closed c p
  Step-Sound (proc_failed l o) h =
      let (c, p, free) = taken_proc h o in
      unfold on_process_failed in hung_up proc_postprocess_error c p
  Step-Sound (shut l listed) h = record {
    counted = Counts.close-Counted listed h.counted;
    alone = Alone.close-Alone h.alone;
  }
  Step-Sound (reopen l handle created free) h = record {
    counted = Counts.attach-Counted handle created free h.counted;
    alone =
        let (r, t, p, _, _, _) =
          unheld h.counted (omega (arith, h.counted, free)) (omega (arith, h.counted, free)) in
        Alone.attach-Alone handle created r t p h.alone;
  }

  pub fresh-Sound :
      (s : Session) → IsFresh s → Sound (record { session = s; answered = unanswered })
  fresh-Sound s f = record { counted = ground arith; alone = ground arith }

  pub Reach-Sound : {l : Life} → Reach mode on_dispatch l → Sound l
  Reach-Sound (start s f) = fresh-Sound s f
  Reach-Sound (later r st) = Step-Sound st (Reach-Sound r)
