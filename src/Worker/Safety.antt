-- ===== src/Worker/Safety.antt =====
-- When a session of NetLib/NetLib may be closed and used again: what its reference count promises.
use rio_network.Base.{
  ℕ, ◌+◌, ◌≤◌, ◌<◌, ◌≡◌, false, none, List, ℤ, pos, negsuc, zero, suc, ap, pos_part, neg_part, refl,
  arith, count_flag,
}
use rio_network.Session.{Session, ProcessMode}
use rio_network.Session.Process.{Callback}
use rio_network.Session.Counts.{
  Answered, recv_posts, send_posts, proc_posts, posts, closings, on_closes, attaches, is_held,
}
use rio_network.Worker.Life.{Life, Reach}
use rio_network.Worker.Sound.{Reach-Sound, unheld}

-- The requests that the workers have taken up.
abbrev pub all_answered : Answered → ℕ
all_answered a = a.recv + a.send + a.proc

-- The reference count as a number.
as_number :
    (c : ℤ) (answered rest : ℕ)
    → neg_part c ≡ 0
    → pos_part c + answered ≡ rest
    → (n : ℕ) × (c ≡ pos n) × (n + answered ≡ rest)
as_number (pos n) answered rest s e = (n, refl, e)
as_number (negsuc n) answered rest s e = absurd (omega arith)

pub zero-is_held : (c : ℤ) → neg_part c ≡ 0 → pos_part c ≡ 0 → is_held c ≡ 0
zero-is_held (pos zero) s e = refl
zero-is_held (pos (suc n)) s e = absurd (omega arith)
zero-is_held (negsuc n) s e = absurd (omega arith)

module _ {mode : ProcessMode} {on_dispatch : Session → List ℕ → Callback} {l : Life}
    (r : Reach mode on_dispatch l) where
  -- In whatever order users, callbacks and workers call a session and the system answers it, its
  -- reference count is never negative: it is one for the open connection and one for each request
  -- that the system accepted and no worker has taken up.
  pub ref_count_exact :
      (n : ℕ) × (l.session.ref_count ≡ pos n)
      × (n + all_answered l.answered ≡ count_flag l.session.connect + posts l.session.out)
  ref_count_exact =
      let h = Reach-Sound mode on_dispatch r in
      as_number l.session.ref_count (all_answered l.answered) _ h.counted.sign
        (omega (arith, h.counted))

  -- A session that waits on the closing list is what `Close` asserts: no reference, no socket, not
  -- connected. No request of it is on its way, so no completion can come for it any more.
  pub closing_IsSafe :
      on_closes l.session.out < closings l.session.out
      → (l.session.ref_count ≡ pos 0)
        × (l.session.socket ≡ none)
        × (l.session.connect ≡ false)
        × (recv_posts l.session.out ≡ l.answered.recv)
        × (send_posts l.session.out ≡ l.answered.send)
        × (proc_posts l.session.out ≡ l.answered.proc)
  closing_IsSafe listed =
      let h = Reach-Sound mode on_dispatch r in
      let u = unheld h.counted (omega (arith, h.counted)) (omega (arith, h.counted)) in
      (
        u.3,
        u.5,
        u.4,
        omega (arith, u, h.counted),
        omega (arith, u, h.counted),
        omega (arith, u, h.counted),
      )

  -- A session is never on the closing list twice: it went there at most once more than it was
  -- closed, and at most once for each time that it was attached.
  pub closing_once :
      (closings l.session.out ≤ on_closes l.session.out + 1)
      × (on_closes l.session.out ≤ closings l.session.out)
      × (closings l.session.out ≤ attaches l.session.out)
  closing_once = let h = Reach-Sound mode on_dispatch r in omega (arith, h.counted)

  -- No session is forgotten: one that is disconnected, with every accepted request taken up, has
  -- gone to the closing list as often as it was attached.
  pub idle-closing :
      l.session.connect ≡ false
      → all_answered l.answered ≡ posts l.session.out
      → closings l.session.out ≡ attaches l.session.out
  idle-closing off all =
      let h = Reach-Sound mode on_dispatch r in
      let unused : count_flag l.session.connect ≡ 0 = ap count_flag off in
      omega (
        arith,
        h.counted,
        zero-is_held l.session.ref_count h.counted.sign (omega (arith, h.counted)),
      )

  -- At most one receive, one send and one process request of a session are on their way at once.
  pub one_request_each :
      (recv_posts l.session.out ≤ l.answered.recv + 1)
      × (send_posts l.session.out ≤ l.answered.send + 1)
      × (proc_posts l.session.out ≤ l.answered.proc + 1)
  one_request_each = let h = Reach-Sound mode on_dispatch r in ground (arith, h.alone)
