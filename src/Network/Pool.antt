-- ===== src/Network/Pool.antt =====
-- What holds of the session pool of Network.cpp between any two calls.
use rio_network.Base.{
  ℕ, ◌≤◌, ◌<◌, ◌≡◌, ◌⊎◌, Option, none, some, ◌==◌, if◌then◌else◌, pos, occurs, total,
}
use rio_network.Session.{Session}
use rio_network.Network.{Network}

-- A slot as a number: 1 when a session is active there.
abbrev pub seated : Option ℕ → ℕ
seated none = 0
seated (some _) = 1

-- Whether the session of this slot is active on this thread.
abbrev pub on_thread : (ℕ → Option ℕ) → (ℕ → Session) → ℕ → ℕ → ℕ
on_thread active sessions thread k = elim (active k) [
  | none ↦ 0
  | some _ ↦ if (sessions k).thread_id == thread then 1 else 0
]

-- Each session of the pool is in the free list, once, or active in its own slot; the counters
-- count the active ones.
pub record IsPool (n : Network) : Type 0 where
  pub small : n.max_session_count ≤ 65535
  pub threads : 0 < n.io_thread_count
  pub named : (k : ℕ) → k < n.max_session_count → (n.sessions k).id ≡ k
  pub slots :
      (k : ℕ)
      → k < n.max_session_count
      → ((n.active k ≡ none) × (occurs k n.free ≡ 1))
        ⊎ ((n.active k ≡ some k) × (occurs k n.free ≡ 0))
  pub inside : (k : ℕ) → n.max_session_count ≤ k → occurs k n.free ≡ 0
  pub placed :
      (k : ℕ)
      → k < n.max_session_count
      → (n.active k ≡ none) ⊎ ((n.sessions k).thread_id < n.io_thread_count)
  pub counted : n.session_count ≡ total n.max_session_count (λ k. seated (n.active k))
  pub loads :
      (t : ℕ)
      → t < n.io_thread_count
      → n.per_thread t ≡ pos (total n.max_session_count (on_thread n.active n.sessions t))
