-- ===== src/System/Shutdown.antt =====
-- The end of `Network::Shutdown`: the closing thread and `WaitForClosedSession`.
use rio_network.Base.{
  ℕ, zero, suc, ◌≤◌, ◌<◌, ◌≡◌, refl, sym, ap, ◌∙◌, ◌⊎◌, inl, inr, Bool, true, false, none, List, [],
  ◌∷◌, arith, ◌==◌, occurs, length, total-zero, Bool-cases,
}
use rio_network.Session.{Session, ProcessMode}
use rio_network.Session.Counts.{posts}
use rio_network.Session.Process.{Callback}
use rio_network.Worker.Safety.{all_answered}
use rio_network.Network.{
  Network, released, closing_round, release_session, closing_thread, wait_for_closed_session,
}
use rio_network.Network.Pool.{IsPool, seated}
use rio_network.Network.Wait.{wait_for_closed_session_lem}
use rio_network.System.{System, SystemReach}
use rio_network.System.Whole.{Whole}
use rio_network.System.Steps.{Closed, closing_round-Closed, close-Whole}
use rio_network.System.Reuse.{SystemReach-Whole, idle_lem}

no_length : (l : List ℕ) → length l ≤ 0 → l ≡ []
no_length [] h = refl
no_length (x ∷ l) h = absurd (omega arith)

closing_round-Cases :
    (is_running : Bool) (n : Network)
    → ((n.closing ≡ []) × ((fuel : ℕ) → closing_thread is_running fuel n ≡ n))
      ⊎ ((next : Network) × (closing_round is_running n ≡ released next)
          × ((fuel : ℕ)
              → closing_thread is_running (suc fuel) n ≡ closing_thread is_running fuel next))
unfolding closing_thread closing_round
closing_round-Cases is_running n = go n.closing refl
  where
    idles : (b : Bool) (fuel : ℕ) → n.closing ≡ [] → closing_thread b fuel n ≡ n
    idles b zero e = refl
    idles true (suc fuel) e = rw e refl
    idles false (suc fuel) e = rw e refl

    go :
        (c : List ℕ)
        → n.closing ≡ c
        → ((n.closing ≡ []) × ((fuel : ℕ) → closing_thread is_running fuel n ≡ n))
          ⊎ ((next : Network) × (closing_round is_running n ≡ released next)
              × ((fuel : ℕ)
                  → closing_thread is_running (suc fuel) n ≡ closing_thread is_running fuel next))
    go [] e = inl (e, λ fuel. idles is_running fuel e)
    go (k ∷ rest) e =
        inr (release_session k (record n { closing = rest }), rw e refl, λ fuel. rw e refl)

-- Every active session waits on the closing list.
abbrev AllListed : Network → Type 0
AllListed n = (k : ℕ) → k < n.max_session_count → occurs k n.closing ≡ seated (n.active k)

none_active :
    {n : Network} → IsPool n → AllListed n → n.closing ≡ [] → wait_for_closed_session n ≡ true
none_active {n} v h empty =
    let none_seated : n.session_count ≡ 0 =
      v.counted
      ∙ total-zero n.max_session_count (λ k. seated (n.active k))
          (λ k l. sym (h k l) ∙ ap (occurs k) empty) in
    wait_for_closed_session_lem v ∙ ap (λ c. c == 0) none_seated

Closed-AllListed :
    (n : Network) {n' : Network} {k : ℕ} {rest : List ℕ}
    → Closed n n' k rest
    → AllListed n
    → AllListed n'
Closed-AllListed n {n'} {k} {rest} c h = λ j b. elim (Bool-cases (k == j)) [
  | inl this ↦
      let at : k ≡ j = ground arith in
      ap (occurs j) c.closing
      ∙ ground (
        arith,
        at,
        h j (omega (arith, b, c.bound)),
        ap (occurs j) c.front,
        ap (λ i. seated (n.active i)) at,
        ap seated c.used,
        ap (λ f. seated (f j)) c.active,
      )
  | inr apart ↦ ground (
    arith,
    apart,
    h j (omega (arith, b, c.bound)),
    ap (occurs j) c.closing,
    ap (occurs j) c.front,
    ap (λ f. seated (f j)) c.active,
  )
]

module _ (mode : ProcessMode) (on_dispatch : Session → List ℕ → Callback) (is_running : Bool) where
  closing_thread-drains :
      (fuel : ℕ) {y : System}
      → Whole y
      → AllListed y.network
      → length y.network.closing ≤ fuel
      → wait_for_closed_session (closing_thread is_running fuel y.network) ≡ true
  closing_thread-drains zero {y} w h l =
      let empty : y.network.closing ≡ [] = no_length y.network.closing l in
      unfold closing_thread in none_active w.pool h empty
  closing_thread-drains (suc fuel) {y} w h l = elim (closing_round-Cases is_running y.network) [
    | inl (empty, same) ↦ ap wait_for_closed_session (same (suc fuel)) ∙ none_active w.pool h empty
    | inr (next, e, same) ↦
        let (k, rest, c) = closing_round-Closed is_running w e in
        ap wait_for_closed_session (same fuel)
        ∙ closing_thread-drains fuel (close-Whole mode on_dispatch is_running w e)
            (Closed-AllListed y.network c h)
            (omega (arith, l, ap length c.front, ap length c.closing))
  ]

-- When every session is disconnected and has no socket, and every accepted request was taken up, as
-- after the loop of `Shutdown` that disconnects them and the answers to their requests unless an
-- `Attach` of RIO has failed (its session keeps the socket for ever), the closing thread needs no
-- more rounds than its list is long until `WaitForClosedSession` says yes, so that `Shutdown` goes
-- on.
pub shutdown-ends :
    {mode : ProcessMode} {on_dispatch : Session → List ℕ → Callback} {y : System}
    (is_running : Bool) (fuel : ℕ)
    → SystemReach mode on_dispatch y
    → ((k : ℕ) → k < y.network.max_session_count → (y.network.sessions k).connect ≡ false)
    → ((k : ℕ) → k < y.network.max_session_count → (y.network.sessions k).socket ≡ none)
    → ((k : ℕ)
        → k < y.network.max_session_count
        → all_answered (y.answered k) ≡ posts (y.network.sessions k).out)
    → length y.network.closing ≤ fuel
    → wait_for_closed_session (closing_thread is_running fuel y.network) ≡ true
shutdown-ends {mode} {on_dispatch} is_running fuel r off no_socket all enough =
    let w = SystemReach-Whole r in
    closing_thread-drains mode on_dispatch is_running fuel w
      (λ k b. idle_lem w k b (off k b) (no_socket k b) (all k b)) enough
