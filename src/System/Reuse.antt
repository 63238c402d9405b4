-- ===== src/System/Reuse.antt =====
-- When a running Network closes a session and uses it again.
use rio_network.Base.{
  ℕ, suc, ◌<◌, ◌≡◌, sym, ap, subst, ◌∙◌, Bool, true, false, none, some, List, arith, pos,
  count_flag, occurs,
}
use rio_network.Session.{Session, ProcessMode}
use rio_network.Session.Counts.{
  recv_posts, send_posts, proc_posts, posts, closings, on_closes, attaches, fails, has_socket,
}
use rio_network.Session.Process.{Callback}
use rio_network.Worker.Life.{unanswered}
use rio_network.Worker.Sound.{fresh-Sound, unheld}
use rio_network.Worker.Safety.{all_answered, zero-is_held}
use rio_network.Network.{Network, start, running, closing_round, released}
use rio_network.Network.Pool.{IsPool, seated}
use rio_network.Network.Create.{start-Made}
use rio_network.System.{
  System, SystemStep, method, allocate, IsStartable, SystemReach, begin, after,
}
use rio_network.System.Whole.{Fits, Whole, method-Whole}
use rio_network.System.Steps.{Closed, closing_round-Closed, allocate-Whole, close-Whole}

start-Whole :
    (mode : ProcessMode) (on_dispatch : Session → List ℕ → Callback) (make : ℕ → Session)
    (fuel processors : ℕ) (n : Network) {n' : Network}
    → IsStartable make fuel processors n
    → start make fuel processors true n ≡ running n'
    → Whole (record { network = n'; answered = λ k. unanswered })
start-Whole mode on_dispatch make fuel processors n {n'} h e =
    let (m, ran, v, count, bound, closing, made) =
      start-Made make fuel processors n h.named h.small h.enough h.some_processor h.unused in
    let same : m ≡ n' = cc (e, ran) in
    subst (λ x. Whole (record { network = x; answered = λ k. unanswered })) same
      (record {
        pool = v;
        fits = λ k b.
            let (empty, fresh) = made k (omega (arith, b, bound)) in
            subst
              (λ s.
                Fits (occurs k m.closing) (m.active k)
                  (record { session = s; answered = unanswered }))
              (sym fresh)
              (record {
                sound = fresh-Sound mode on_dispatch (make k) (h.fresh k);
                listed = omega (
                  arith,
                  ap (occurs k) (closing ∙ h.none_closing),
                  ap on_closes (h.fresh k).no_effects,
                  ap closings (h.fresh k).no_effects,
                );
                held = omega (
                  arith,
                  ap seated empty,
                  ap on_closes (h.fresh k).no_effects,
                  ap attaches (h.fresh k).no_effects,
                  ap fails (h.fresh k).no_effects,
                );
              });
        inside = λ k b. ap (occurs k) (closing ∙ h.none_closing);
      })

-- A disconnected session without a socket and without open requests is on the closing list while it
-- is active.
pub idle_lem :
    {y : System}
    → Whole y
    → (k : ℕ) → k < y.network.max_session_count
    → (y.network.sessions k).connect ≡ false
    → (y.network.sessions k).socket ≡ none
    → all_answered (y.answered k) ≡ posts (y.network.sessions k).out
    → occurs k y.network.closing ≡ seated (y.network.active k)
idle_lem {y} w k below off no_socket all =
    let f = w.fits k below in
    let c = f.sound.counted in
    let unused : count_flag (y.network.sessions k).connect ≡ 0 = ap count_flag off in
    omega (
      arith,
      c,
      f.held,
      f.listed,
      ap (λ o. count_flag (has_socket o)) no_socket,
      zero-is_held (y.network.sessions k).ref_count c.sign (omega (arith, c)),
    )

module _ {mode : ProcessMode} {on_dispatch : Session → List ℕ → Callback} where
  pub SystemReach-Whole : {y : System} → SystemReach mode on_dispatch y → Whole y
  SystemReach-Whole (begin {make} {fuel} {processors} {n} h e) =
      start-Whole mode on_dispatch make fuel processors n h e
  SystemReach-Whole (after r (method y k below st m)) =
      method-Whole (SystemReach-Whole r) below st m
  SystemReach-Whole (after r (allocate y handle created)) =
      allocate-Whole mode on_dispatch handle created (SystemReach-Whole r)
  SystemReach-Whole (after r (SystemStep.close y is_running e)) =
      close-Whole mode on_dispatch is_running (SystemReach-Whole r) e

module _ {mode : ProcessMode} {on_dispatch : Session → List ℕ → Callback} {y : System}
    (r : SystemReach mode on_dispatch y) where
  -- In whatever order threads call sessions, allocate and release them, the pool stays sound.
  pub reach-IsPool : IsPool y.network
  reach-IsPool = (SystemReach-Whole r).pool

  -- A session that `AllocateSession` may hand out, one with an empty slot, is idle: nobody holds a
  -- reference, it has no socket and is not connected, it is not on the closing list, and every
  -- request that the system accepted from it was taken up, so that no completion of its last
  -- connection can reach the next.
  pub free_IsIdle :
      (k : ℕ)
      → k < y.network.max_session_count
      → y.network.active k ≡ none
      → let s = y.network.sessions k in
        let a = y.answered k in
        (s.ref_count ≡ pos 0)
        × (s.socket ≡ none)
        × (s.connect ≡ false)
        × (occurs k y.network.closing ≡ 0)
        × (recv_posts s.out ≡ a.recv)
        × (send_posts s.out ≡ a.send)
        × (proc_posts s.out ≡ a.proc)
  free_IsIdle k below empty =
      let f = (SystemReach-Whole r).fits k below in
      let c = f.sound.counted in
      let u =
        unheld c (omega (arith, c, f.held, ap seated empty))
          (omega (arith, c, f.held, ap seated empty)) in
      (
        u.3,
        u.5,
        u.4,
        omega (arith, c, f.held, f.listed, ap seated empty),
        omega (arith, u, c),
        omega (arith, u, c),
        omega (arith, u, c),
      )

  -- An active session that is disconnected and has no socket, with every accepted request taken up,
  -- is on the closing list, once. A session whose `Attach` failed keeps its socket, and nothing is
  -- said of it.
  pub idle_IsListed :
      (k : ℕ)
      → k < y.network.max_session_count
      → y.network.active k ≡ some k
      → (y.network.sessions k).connect ≡ false
      → (y.network.sessions k).socket ≡ none
      → all_answered (y.answered k) ≡ posts (y.network.sessions k).out
      → occurs k y.network.closing ≡ 1
  idle_IsListed k below used off no_socket all =
      idle_lem (SystemReach-Whole r) k below off no_socket all ∙ ap seated used

  -- A round of the closing thread takes the first session of its list. That session is active, what
  -- `Close` asserts of it holds (no reference, no socket, not connected), and afterwards it is gone
  -- from the list, its slot is empty, it is closed, and the pool is sound.
  pub closing_round_IsSafe :
      (is_running : Bool) {n : Network}
      → closing_round is_running y.network ≡ released n
      → (k : ℕ) × (rest : List ℕ) × Closed y.network n k rest
        × ((y.network.sessions k).ref_count ≡ pos 0)
        × ((y.network.sessions k).socket ≡ none)
        × ((y.network.sessions k).connect ≡ false)
  closing_round_IsSafe is_running e =
      let (k, rest, c) = closing_round-Closed is_running (SystemReach-Whole r) e in
      let f = (SystemReach-Whole r).fits k c.below in
      let once : occurs k y.network.closing ≡ suc (occurs k rest) =
        ap (occurs k) c.front ∙ ground arith in
      let u =
        unheld f.sound.counted (omega (arith, f.sound.counted, f.listed, once))
          (omega (arith, f.sound.counted, f.listed, once)) in
      (k, rest, c, u.3, u.5, u.4)
