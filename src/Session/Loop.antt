-- ===== src/Session/Loop.antt =====
-- What the packet loop of Session.cpp keeps, whatever the callback does.
use rio_network.Base.{
  ℕ, zero, suc, ◌+◌, ◌≤◌, subst, ℤ, ◌≡◌, refl, inl, inr, Bool, true, false, Option, none, some,
  List, [], ◌∷◌, arith, Bool-cases,
}
use rio_network.Ring.{Ring}
use rio_network.Session.{
  Session, ProcessMode, user, own, dispatched, host_closed, send_postsend_error,
}
use rio_network.Session.Recv.{Unmarshalled, nothing, thrown, packet, unmarshall}
use rio_network.Session.Send.{post_send_buffered}
use rio_network.Session.Process.{
  Request, send, send_buffered, flush_send, hang_up, Callback, Drained, perform, perform_all,
  dispatch, drain, process_completion, process_packet, finish, disconnect_on_error,
}
use rio_network.Session.Counts.{
  Answered, Counted, post_send-Counted, marshall-Counted, flush-Counted, disconnect-Counted,
  post_process-Counted, proc_posts,
}
use rio_network.Session.Untouched.{perform-Untouched}
use rio_network.Session.Alone.{
  Alone, post_send-Alone, marshall-Alone, flush-Alone, disconnect-Alone, post_process-Alone,
}

abbrev Keeps : (Session → Type 0) → Request → Type 0
Keeps P r = (s : Session) → P s → P (perform r s)

-- A property that no request of the callback and no cut of the receive buffer breaks.
pub record Stable (P : Session → Type 0) : Type 0 where
  pub on_request : (r : Request) (s : Session) → P s → P (perform r s)
  pub on_packet :
      (bytes : List ℕ) (ring : Ring) (s : Session)
      → P s
      → P (record s { recv_buffer = ring; out = dispatched bytes ∷ s.out })

module _ (P : Session → Type 0) (stable : Stable P) where
  pub perform_all-keeps : (rs : List Request) (s : Session) → P s → P (perform_all rs s)
  unfolding perform_all
  perform_all-keeps [] s h = h
  perform_all-keeps (r ∷ rs) s h = perform_all-keeps rs (perform r s) (stable.on_request r s h)

  module _ (on_dispatch : Session → List ℕ → Callback) where
    pub dispatch-keeps :
        (bytes : List ℕ) (ring : Ring) (s : Session)
        → P s
        → P (dispatch on_dispatch bytes (record s { recv_buffer = ring })).0
    unfolding dispatch
    dispatch-keeps bytes ring s h = perform_all-keeps _ _ (stable.on_packet bytes ring s h)

    -- What the loop leaves, if it ends.
    abbrev Leaves : Option Drained → Type 0
    Leaves none = Unit
    Leaves (some d) = P d.session

    pub drain-keeps : (fuel count : ℕ) (s : Session) → P s → Leaves (drain on_dispatch fuel count s)
    unfolding drain
    drain-keeps zero count s h = tt
    drain-keeps (suc fuel) count s h =
        go (unmarshall s.recv_buffer) refl (drain-keeps fuel (count + 1))
      where
        go :
            (u : Unmarshalled)
            → unmarshall s.recv_buffer ≡ u
            → ((s' : Session) → P s' → Leaves (drain on_dispatch fuel (count + 1) s'))
            → Leaves (drain on_dispatch (suc fuel) count s)
        go nothing e rest = rw (e, drain) h
        go thrown e rest = rw (e, drain) h
        go (packet bytes ring) e rest =
            let after = dispatch on_dispatch bytes (record s { recv_buffer = ring }) in
            elim (Bool-cases after.1) [
              | inl threw ↦ rw (e, drain, threw) (dispatch-keeps bytes ring s h)
              | inr returned ↦
                  rw (e, drain, returned) (rest after.0 (dispatch-keeps bytes ring s h))
            ]

-- The reference count survives the callback.
pub Counted-Stable : (a : Answered) (h : ℕ) → Stable (Counted a h)
Counted-Stable a h = record { on_request = request; on_packet = cut }
  where
    request : (r : Request) (s : Session) → Counted a h s → Counted a h (perform r s)
    request (send bytes len reply) s c = unfold perform in post_send-Counted bytes len reply c
    request (send_buffered bytes len) s c =
        unfold perform in unfold post_send_buffered in marshall-Counted bytes len c
    request (flush_send reply) s c = unfold perform in flush-Counted reply c
    request hang_up s c = unfold perform in disconnect-Counted host_closed c

    cut :
        (bytes : List ℕ) (ring : Ring) (s : Session)
        → Counted a h s
        → Counted a h (record s { recv_buffer = ring; out = dispatched bytes ∷ s.out })
    cut bytes ring s c = ground arith

-- And so do the pending flags.
pub Alone-Stable : (a : Answered) → Stable (Alone a)
Alone-Stable a = record { on_request = request; on_packet = cut }
  where
    request : (r : Request) (s : Session) → Alone a s → Alone a (perform r s)
    request (send bytes len reply) s c = unfold perform in post_send-Alone bytes len reply c
    request (send_buffered bytes len) s c =
        unfold perform in unfold post_send_buffered in marshall-Alone bytes len c
    request (flush_send reply) s c = unfold perform in flush-Alone reply c
    request hang_up s c = unfold perform in disconnect-Alone host_closed c

    cut :
        (bytes : List ℕ) (ring : Ring) (s : Session)
        → Alone a s
        → Alone a (record s { recv_buffer = ring; out = dispatched bytes ∷ s.out })
    cut bytes ring s c = ground arith

pub both-Stable : {P Q : Session → Type 0} → Stable P → Stable Q → Stable (λ s. P s × Q s)
both-Stable p q = record {
  on_request = λ r s h. (p.on_request r s h.0, q.on_request r s h.1);
  on_packet = λ bytes ring s h. (p.on_packet bytes ring s h.0, q.on_packet bytes ring s h.1);
}

-- The callback asks for no processing.
pub proc_posts-Stable : (n : ℕ) → Stable (λ s. proc_posts s.out ≤ n)
proc_posts-Stable n = record { on_request = request; on_packet = λ bytes ring s h. h }
  where
    request : (r : Request) (s : Session) → proc_posts s.out ≤ n → proc_posts (perform r s).out ≤ n
    request r s h = omega (arith, perform-Untouched r s)

module _ (on_dispatch : Session → List ℕ → Callback) (P : Session → Type 0)
    (stable : Stable P) where
  -- A finished `ProcessCompletion` keeps what its loop and its end keep.
  pub process_completion-keeps :
      (Q : Session → Type 0)
      → ((d : Drained) → P d.session → Q (finish d))
      → (fuel : ℕ) (s : Session) {s' : Session} → process_completion on_dispatch fuel s ≡ some s'
      → P s
      → Q s'
  unfolding process_completion
  process_completion-keeps Q at_end fuel s {s'} e h =
      ended (drain on_dispatch fuel 0 s) refl (drain-keeps P stable on_dispatch fuel 0 s h)
    where
      ended :
          (d : Option Drained)
          → drain on_dispatch fuel 0 s ≡ d
          → Leaves P stable on_dispatch d
          → Q s'
      ended none q l = absurd (cc)
      ended (some d) q l = subst Q (cc) (at_end d l)

  pub process_packet-keeps :
      ((d : Drained) → P d.session → P (disconnect_on_error d.has_error d.session))
      → (mode : ProcessMode) (fuel : ℕ) (s : Session) {o : Session × ℤ}
      → process_packet on_dispatch mode fuel s ≡ some o
      → P s
      → P o.0
  unfolding process_packet
  process_packet-keeps at_end own fuel s {o} e h = subst P (cc) h
  process_packet-keeps at_end user fuel s {o} e h =
      ended (drain on_dispatch fuel 0 s) refl (drain-keeps P stable on_dispatch fuel 0 s h)
    where
      ended :
          (d : Option Drained)
          → drain on_dispatch fuel 0 s ≡ d
          → Leaves P stable on_dispatch d
          → P o.0
      ended none q l = absurd (cc)
      ended (some d) q l = subst P (cc) (at_end d l)

pub disconnect_on_error-Counted :
    {a : Answered} {h : ℕ} (e : Bool) {s : Session}
    → Counted a h s
    → Counted a h (disconnect_on_error e s)
disconnect_on_error-Counted true c = disconnect-Counted send_postsend_error c
disconnect_on_error-Counted false c = c

pub disconnect_on_error-Alone :
    {a : Answered} (e : Bool) {s : Session} → Alone a s → Alone a (disconnect_on_error e s)
disconnect_on_error-Alone true c = disconnect-Alone send_postsend_error c
disconnect_on_error-Alone false c = c

pub finish-Counted :
    {a : Answered} {h : ℕ} (d : Drained) → Counted a h d.session → Counted a h (finish d)
unfolding finish
finish-Counted {a} {h} d c = post_process-Counted (disconnect_on_error-Counted d.has_error unlocked)
  where
    unlocked : Counted a h (record d.session { proc_pending = false })
    unlocked = ground arith

pub finish-Alone :
    {a : Answered} (d : Drained)
    → Alone a d.session
    → proc_posts d.session.out ≤ a.proc
    → Alone a (finish d)
unfolding finish
finish-Alone {a} d c free = post_process-Alone (disconnect_on_error-Alone d.has_error unlocked)
  where
    unlocked : Alone a (record d.session { proc_pending = false })
    unlocked = ground arith
