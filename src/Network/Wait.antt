-- ===== src/Network/Wait.antt =====
-- `WaitForClosedSession` of Network.cpp against the number of sessions.
use rio_network.Base.{
  ℕ, zero, suc, ◌+◌, ◌≤◌, ◌<◌, ◌≡◌, refl, ap, ◌∙◌, inl, inr, true, false, Option, none, ◌⊎◌,
  Bool-cases, arith, ◌==◌, total-zero, le-total, Option-cases,
}
use rio_network.Network.{Network, all_closed, wait_for_closed_session}
use rio_network.Network.Pool.{IsPool, seated}

-- Either the loop says yes and every slot it saw is empty, or no and one of them is not.
all_closed_lem :
    (active : ℕ → Option ℕ) (left i : ℕ)
    → ((all_closed active left i ≡ true) × ((j : ℕ) → i ≤ j → j < left + i → active j ≡ none))
      ⊎ ((all_closed active left i ≡ false) × ((j : ℕ) × (j < left + i) × (seated (active j) ≡ 1)))
unfolding all_closed
all_closed_lem active zero i = inl (refl, λ j l h. absurd (omega arith))
all_closed_lem active (suc left) i = elim (Option-cases (active i)) [
  | inr (k, taken) ↦ inr (rw (taken, all_closed) refl, (i, omega arith, ap seated taken))
  | inl empty ↦ elim (all_closed_lem active left (i + 1)) [
    | inl (holds, all) ↦ inl (
      rw (empty, all_closed) holds,
      λ j l h. elim (Bool-cases (i == j)) [
        | inl this ↦ let at : j ≡ i = ground arith in ap active at ∙ empty
        | inr apart ↦ all j (ground arith) (omega arith)
      ],
    )
    | inr (fails, (j, b, taken)) ↦ inr (rw (empty, all_closed) fails, (j, omega arith, taken))
  ]
]

-- `WaitForClosedSession` of a sound pool answers whether the counter of active sessions is 0.
pub wait_for_closed_session_lem :
    {n : Network} → IsPool n → wait_for_closed_session n ≡ (n.session_count == 0)
unfolding wait_for_closed_session
wait_for_closed_session_lem {n} v = elim (all_closed_lem n.active n.max_session_count 0) [
  | inl (holds, all) ↦ ground (
    arith,
    holds,
    v.counted
        ∙ total-zero n.max_session_count (λ k. seated (n.active k))
            (λ k l. ap seated (all k (omega arith) (omega arith))),
  )
  | inr (fails, (j, b, taken)) ↦ ground (
    arith,
    fails,
    v.counted,
    taken,
    le-total n.max_session_count (λ k. seated (n.active k)) j (omega arith),
  )
]
