-- ===== src/Network/Destroy.antt =====
-- `Network::DestroySessionPool` of Network.cpp, the last call of `Shutdown`. A session that is deleted
-- is listed by its number; the array `m_ActiveSessionList` itself is freed afterwards.
use rio_network.Base.{
  ℕ, zero, suc, ◌+◌, ◌<◌, ◌≡◌, refl, ap, ◌∙◌, ◌⊎◌, inl, inr, Option, none, some, List, [], ◌∷◌,
  ◌++◌, arith, ltb, leb, ◌==◌, if◌then◌else◌, Bool-cases, update, occurs, occurs-append,
}
use rio_network.Network.{Network}
use rio_network.Network.Pool.{IsPool, seated}

-- The loop over `m_ActiveSessionList`: the slots from `i`, `left` of them.
destroy_active : ℕ → ℕ → Network → List ℕ × Network
destroy_active zero i n = ([], n)
destroy_active (suc left) i n = elim (n.active i) [
  | none ↦ destroy_active left (i + 1) n
  | some k ↦
      let (deleted, n') =
        destroy_active left (i + 1) (record n { active = update n.active i none }) in
      (k ∷ deleted, n')
]

pub destroy_session_pool : Network → List ℕ × Network
unfolding destroy_active
destroy_session_pool n =
    let (deleted, n') = destroy_active n.max_session_count 0 n in
    (deleted ++ n'.free, record n' { free = [] })

-- Every slot is empty or holds the session of its number.
abbrev Own : ℕ → (ℕ → Option ℕ) → Type 0
Own count active = (k : ℕ) → k < count → (active k ≡ none) ⊎ (active k ≡ some k)

-- What the loop deletes: the sessions that are active in its slots.
abbrev seated_from : ℕ → ℕ → (ℕ → Option ℕ) → ℕ → ℕ
seated_from i end active k = if leb i k then (if ltb k end then seated (active k) else 0) else 0

skip :
    (left i k : ℕ) (active : ℕ → Option ℕ)
    → active i ≡ none
    → seated_from (i + 1) (i + 1 + left) active k ≡ seated_from i (i + suc left) active k
skip left i k active e = elim (Bool-cases (i == k)) [
  | inl this ↦ let at : i ≡ k = ground arith in ground (arith, at, ap active at, e)
  | inr other ↦ ground arith
]

hit :
    (left i k : ℕ) (active : ℕ → Option ℕ)
    → active i ≡ some i
    → (if i == k then 1 else 0) + seated_from (i + 1) (i + 1 + left) (update active i none) k
      ≡ seated_from i (i + suc left) active k
hit left i k active e = elim (Bool-cases (i == k)) [
  | inl this ↦
      let at : i ≡ k = ground arith in ground (arith, at, ap seated (ap active at), ap seated e)
  | inr other ↦ rw other (ground (arith, other))
]

Own-update :
    (count i : ℕ) (active : ℕ → Option ℕ) → Own count active → Own count (update active i none)
Own-update count i active own j b = elim (Bool-cases (i == j)) [
  | inl this ↦ rw this (inl refl)
  | inr other ↦ rw other (own j b)
]

destroy_active-none :
    (left i : ℕ) (n : Network)
    → n.active i ≡ none
    → destroy_active (suc left) i n ≡ destroy_active left (i + 1) n
unfolding destroy_active
destroy_active-none left i n e = rw (e, destroy_active) refl

destroy_active-some :
    (left i : ℕ) (n : Network) {j : ℕ}
    → n.active i ≡ some j
    → destroy_active (suc left) i n ≡ (
      j ∷ (destroy_active left (i + 1) (record n { active = update n.active i none })).0,
      (destroy_active left (i + 1) (record n { active = update n.active i none })).1,
    )
unfolding destroy_active
destroy_active-some left i n e = rw (e, destroy_active) refl

destroy_active_lem :
    (left i : ℕ) (n : Network) (k : ℕ)
    → Own (i + left) n.active
    → let (deleted, n') = destroy_active left i n in
      (occurs k deleted ≡ seated_from i (i + left) n.active k) × (n'.free ≡ n.free)
unfolding destroy_active
destroy_active_lem zero i n k own = (ground arith, refl)
destroy_active_lem (suc left) i n k own = elim (own i (omega arith)) [
  | inl empty ↦
      let (d, f) = destroy_active_lem left (i + 1) n k (λ j b. own j (omega (arith, b))) in
      let at = destroy_active-none left i n empty in
      (ap (λ x. occurs k x.0) at ∙ d ∙ skip left i k n.active empty, ap (λ x. x.1.free) at ∙ f)
  | inr here ↦
      let (d, f) =
        destroy_active_lem left (i + 1) (record n { active = update n.active i none }) k
          (Own-update (i + 1 + left) i n.active (λ j b. own j (omega (arith, b)))) in
      let at = destroy_active-some left i n here in
      (
        ap (λ x. occurs k x.0) at
            ∙ ap (λ x. (if i == k then 1 else 0) + x) d
            ∙ hit left i k n.active here,
        ap (λ x. x.1.free) at ∙ f,
      )
]

-- On a sound pool `DestroySessionPool` deletes every session that `CreateSessionPool` made, whether
-- it is active or free, exactly once, and nothing else.
pub destroy_session_pool_once :
    {n : Network}
    → IsPool n
    → (k : ℕ) → occurs k (destroy_session_pool n).0 ≡ (if ltb k n.max_session_count then 1 else 0)
unfolding destroy_session_pool
destroy_session_pool_once {n} v k =
    let (deleted, n') = destroy_active n.max_session_count 0 n in
    let (d, f) = destroy_active_lem n.max_session_count 0 n k own in
    occurs-append k deleted n'.free
    ∙ ap (λ l. occurs k deleted + occurs k l) f
    ∙ ap (λ x. x + occurs k n.free) d
    ∙ elim (Bool-cases (ltb k n.max_session_count)) [
      | inl inside ↦ elim (v.slots k (ground arith)) [
        | inl (empty, once) ↦ ground (arith, inside, ap seated empty, once)
        | inr (here, never) ↦ ground (arith, inside, ap seated here, never)
      ]
      | inr outside ↦ ground (arith, outside, v.inside k (ground arith))
    ]
  where
    own : Own (0 + n.max_session_count) n.active
    own j b = elim (v.slots j (omega (arith, b))) [
      | inl (empty, once) ↦ inl empty
      | inr (here, never) ↦ inr here
    ]
