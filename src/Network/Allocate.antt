-- ===== src/Network/Allocate.antt =====
-- `AllocateSession` of Network.cpp: a free session gets a socket, a slot and a thread.
use rio_network.Base.{
  ℕ, suc, ◌+◌, ◌≤◌, ◌<◌, ◌^◌, ◌%◌, ◌≡◌, refl, sym, ap, subst, ◌∙◌, ◌⊎◌, inl, inr, Bool, Option,
  none, some, List, [], ◌∷◌, arith, ◌==◌, if◌then◌else◌, pos, increment, occurs, total, total-le,
  total_congr, total_set, total-full, update, Bool-cases,
}
use rio_network.Session.{Session}
use rio_network.Session.Refs.{attach, set_thread_id}
use rio_network.Network.Least.{min_element-in}
use rio_network.Network.{
  Network, min_element, get_proper_thread_id_and_inc_count, allocate_from, allocate_session,
}
use rio_network.Network.Pool.{IsPool, seated, on_thread}

module _ {n : Network} (v : IsPool n) {k : ℕ} {rest : List ℕ} (head : n.free ≡ k ∷ rest) where
  first-occurs : occurs k n.free ≡ suc (occurs k rest)
  first-occurs = rw head (ground arith)

  occurs_rest : (j : ℕ) → occurs j n.free ≡ (if k == j then 1 else 0) + occurs j rest
  occurs_rest j = rw head refl

  first_free : (k < n.max_session_count) × (n.active k ≡ none) × (occurs k rest ≡ 0)
  first_free = ground (arith, first-occurs, v.slots k, v.inside k)

  one_more :
      total n.max_session_count (λ j. seated (update n.active k (some k) j))
      ≡ suc (total n.max_session_count (λ j. seated (n.active j)))
  one_more =
      total_set n.max_session_count (λ j. seated (n.active j))
        (λ j. seated (update n.active k (some k) j)) k first_free.0 (ap seated first_free.1)
        (ground arith) (λ j other. ground arith)

  room : suc (total n.max_session_count (λ j. seated (n.active j))) ≤ n.max_session_count
  room = omega (
    arith,
    one_more,
    total-le n.max_session_count (λ j. seated (update n.active k (some k) j)) (λ j l. ground arith),
  )

  module _ (thread : ℕ) (known : thread < n.io_thread_count) (s : Session) (name : s.id ≡ k)
      (mine : s.thread_id ≡ thread) where
    -- The pool with the session at this slot.
    abbrev seat_at : ℕ → Network
    seat_at slot = record n {
      free = rest;
      active = update n.active slot (some k);
      per_thread = update n.per_thread thread (increment (n.per_thread thread));
      sessions = update n.sessions k s;
      session_count = (n.session_count + 1) % 2 ^ 16;
    }

    abbrev seat : Network
    seat = seat_at k

    seat_loads :
        (t : ℕ)
        → t < n.io_thread_count
        → seat.per_thread t
          ≡ pos (total n.max_session_count (on_thread seat.active seat.sessions t))
    unfolding increment
    seat_loads t l = elim (Bool-cases (thread == t)) [
      | inl this ↦
          let same : thread ≡ t = ground arith in
          let more =
            total_set n.max_session_count (on_thread n.active n.sessions t)
              (on_thread seat.active seat.sessions t) k first_free.0 (ground (arith, first_free))
              (ground arith) (λ j other. ground arith) in
          rw this (
            ap (λ x. increment (n.per_thread x)) same
            ∙ ap increment (v.loads t l)
            ∙ ap pos (sym more))
      | inr other ↦
          let same =
            total_congr n.max_session_count (on_thread n.active n.sessions t)
              (on_thread seat.active seat.sessions t)
              (λ j below. elim (Bool-cases (k == j)) [
                | inl this ↦
                    let at : j ≡ k = ground arith in ground (arith, ap n.active at ∙ first_free.1)
                | inr apart ↦ ground arith
              ]) in
          rw other (v.loads t l ∙ ap pos same)
    ]

    seat-IsPool : IsPool seat
    seat-IsPool = record {
      small = v.small;
      threads = v.threads;
      named = λ j l. ground (arith, v.named j);
      slots = λ j l. ground (arith, v.slots j l, first_free, first-occurs, occurs_rest j);
      inside = λ j l. ground (arith, v.inside j l, occurs_rest j);
      placed = λ j l. ground (arith, v.placed j l);
      counted = ground (arith, v.counted, one_more, v.small, room);
      loads = λ t l. seat_loads t l;
    }

attach_thread :
    (handle : ℕ) (created : Bool) (thread : ℕ) (s : Session)
    → let s' = attach handle created (set_thread_id thread s) in
      (s'.id ≡ s.id) × (s'.thread_id ≡ thread)
unfolding attach set_thread_id
attach_thread handle created thread s = ground arith

-- `AllocateSession` keeps a sound pool sound: every session is in the free list once or active in
-- its own slot, and the counters count the active ones.
pub allocate_session-IsPool :
    (handle : ℕ) (created : Bool) {n : Network}
    → IsPool n
    → IsPool (allocate_session handle created n).0
unfolding allocate_session allocate_from get_proper_thread_id_and_inc_count
allocate_session-IsPool handle created {n} v = go n.free refl
  where
    go : (l : List ℕ) → n.free ≡ l → IsPool (allocate_from handle created l n).0
    go [] e = v
    go (k ∷ rest) e =
        let (below, unused, once) = first_free v e in
        let thread = min_element n.per_thread n.io_thread_count in
        let known = min_element-in n.per_thread n.io_thread_count v.threads in
        let (same, mine) = attach_thread handle created thread (n.sessions k) in
        let name = same ∙ v.named k below in
        let s = attach handle created (set_thread_id thread (n.sessions k)) in
        subst (λ slot. IsPool (seat_at v e thread known s name mine slot)) (sym (v.named k below))
          (seat-IsPool v e thread known s name mine)

-- An answer of `AllocateSession`: nothing changed and as many sessions are active as there are, or
-- a session whose slot was empty is active in it, counted and attached.
abbrev pub Allocated : ℕ → Bool → Network → Network × Option ℕ → Type 0
Allocated handle created n (n', none) = (n' ≡ n) × (n.session_count ≡ n.max_session_count)
Allocated handle created n (n', some k) =
    (k < n.max_session_count)
    × (n.active k ≡ none)
    × (n'.active k ≡ some k)
    × (n'.session_count ≡ suc n.session_count)
    × (n'.sessions k
        ≡ attach handle created
            (set_thread_id (min_element n.per_thread n.io_thread_count) (n.sessions k)))

-- `AllocateSession` of a sound pool either answers null, changes nothing, and every session of the
-- pool is counted as active; or it answers a session whose slot was empty and that is now in its
-- slot, with one session more counted, the first least loaded thread set and `Attach` done.
pub allocate_session_lem :
    (handle : ℕ) (created : Bool) {n : Network}
    → IsPool n
    → Allocated handle created n (allocate_session handle created n)
unfolding allocate_session allocate_from get_proper_thread_id_and_inc_count
allocate_session_lem handle created {n} v = go n.free refl
  where
    go : (l : List ℕ) → n.free ≡ l → Allocated handle created n (allocate_from handle created l n)
    go [] e = (
      refl,
      v.counted
          ∙ total-full n.max_session_count (λ k. seated (n.active k))
              (λ k l. ground (arith, v.slots k l, ap (occurs k) e)),
    )
    go (k ∷ rest) e =
        let (below, unused, once) = first_free v e in
        (
          below,
          unused,
          ground (arith, v.named k below),
          omega (arith, v.counted, room v e, v.small),
          ground arith,
        )

-- The pool when this session was taken from the free list and attached.
pub record Seated (handle : ℕ) (created : Bool) (n n' : Network) (k : ℕ) : Type 0 where
  pub below : k < n.max_session_count
  pub unused : n.active k ≡ none
  pub bound : n'.max_session_count ≡ n.max_session_count
  pub closing : n'.closing ≡ n.closing
  pub active : n'.active ≡ update n.active k (some k)
  pub sessions :
      n'.sessions
      ≡ update n.sessions k (
          attach handle created
            (set_thread_id (min_element n.per_thread n.io_thread_count) (n.sessions k)))

pub allocate_session-Seated :
    (handle : ℕ) (created : Bool) {n : Network}
    → IsPool n
    → let n' = (allocate_session handle created n).0 in
      (n' ≡ n) ⊎ ((k : ℕ) × Seated handle created n n' k)
unfolding allocate_session allocate_from get_proper_thread_id_and_inc_count
allocate_session-Seated handle created {n} v = go n.free refl
  where
    go :
        (l : List ℕ)
        → n.free ≡ l
        → let n' = (allocate_from handle created l n).0 in
          (n' ≡ n) ⊎ ((k : ℕ) × Seated handle created n n' k)
    go [] e = inl refl
    go (k ∷ rest) e =
        let (below, unused, once) = first_free v e in
        inr (
          k,
          record {
            below = below;
            unused = unused;
            bound = refl;
            closing = refl;
            active = ap (λ slot. update n.active slot (some k)) (v.named k below);
            sessions = refl;
          },
        )
