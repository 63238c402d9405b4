-- ===== src/Network/Release.antt =====
-- `ReleaseSession` of Network.cpp: the closing thread gives an active session back to the pool.
use rio_network.Base.{
  ◌-◌, ℕ, suc, ◌+◌, ◌≤◌, ◌<◌, ◌^◌, ◌%◌, ◌≡◌, refl, sym, ap, subst, ◌∙◌, inl, inr, true, none, some,
  [], ◌∷◌, ◌++◌, arith, ◌==◌, if◌then◌else◌, pos, decrement, occurs, occurs-append, total, total-le,
  total_congr, total_set, update, Bool-cases,
}
use rio_network.Session.{Session}
use rio_network.Session.Refs.{close}
use rio_network.Network.{Network, points_to, dec_session_count_per_thread, release_session}
use rio_network.Network.Pool.{IsPool, seated, on_thread}

update-same {ℓ} : {A : Type ℓ} (f : ℕ → A) (i : ℕ) (a : A) → update f i a i ≡ a
update-same f i a = ground arith

close_lem : (s : Session) → ((close s).id ≡ s.id) × ((close s).thread_id ≡ s.thread_id)
unfolding close
close_lem s = (refl, refl)

module _ {n : Network} (v : IsPool n) {k : ℕ} (below : k < n.max_session_count)
    (used : n.active k ≡ some k) where
  abbrev pub thread : ℕ
  thread = (n.sessions k).thread_id

  -- The pool with this session in its free list.
  abbrev pub put_back : Session → ℕ → Network
  put_back s t = record n {
    sessions = update n.sessions k s;
    active = update n.active k none;
    free = n.free ++ (k ∷ []);
    session_count = (n.session_count + (2 ^ 16 - 1)) % 2 ^ 16;
    per_thread = update n.per_thread t (decrement (n.per_thread t));
  }

  one_less :
      total n.max_session_count (λ j. seated (n.active j))
      ≡ suc (total n.max_session_count (λ j. seated (update n.active k none j)))
  one_less =
      total_set n.max_session_count (λ j. seated (update n.active k none j))
        (λ j. seated (n.active j)) k below (ground arith) (ap seated used) (λ j other. ground arith)

  room : total n.max_session_count (λ j. seated (n.active j)) ≤ n.max_session_count
  room =
      total-le n.max_session_count (λ j. seated (n.active j)) (λ j l. ground (arith, v.slots j l))

  known : thread < n.io_thread_count
  known = ground (arith, v.placed k below)

  free-occurs :
      (j : ℕ) → occurs j (n.free ++ (k ∷ [])) ≡ occurs j n.free + (if k == j then 1 else 0)
  free-occurs j = omega (arith, occurs-append j n.free (k ∷ []))

  module _ (s : Session) (name : s.id ≡ k) where
    abbrev back : Network
    back = put_back s thread

    back_loads :
        (t : ℕ)
        → t < n.io_thread_count
        → back.per_thread t
          ≡ pos (total n.max_session_count (on_thread back.active back.sessions t))
    unfolding decrement
    back_loads t l = elim (Bool-cases (thread == t)) [
      | inl this ↦
          let same : thread ≡ t = ground arith in
          let less =
            total_set n.max_session_count (on_thread back.active back.sessions t)
              (on_thread n.active n.sessions t) k below (ground arith) (ground (arith, used))
              (λ j other. ground arith) in
          rw this
            (ap (λ x. decrement (n.per_thread x)) same ∙ ap decrement (v.loads t l ∙ ap pos less))
      | inr other ↦
          let same =
            total_congr n.max_session_count (on_thread n.active n.sessions t)
              (on_thread back.active back.sessions t)
              (λ j l. elim (Bool-cases (k == j)) [
                | inl this ↦
                    let at : j ≡ k = ground arith in
                    ground (arith, ap n.active at ∙ used, ap (λ x. (n.sessions x).thread_id) at)
                | inr apart ↦ ground arith
              ]) in
          rw other (v.loads t l ∙ ap pos same)
    ]

    back-IsPool : IsPool back
    back-IsPool = record {
      small = v.small;
      threads = v.threads;
      named = λ j l. ground (arith, v.named j);
      slots = λ j l. elim (Bool-cases (k == j)) [
        | inl this ↦
            let at : j ≡ k = ground arith in
            ground (arith, v.slots j l, ap n.active at ∙ used, free-occurs j)
        | inr apart ↦ ground (arith, v.slots j l, free-occurs j)
      ];
      inside = λ j l. ground (arith, v.inside j l, free-occurs j);
      placed = λ j l. ground (arith, v.placed j l);
      counted = omega (arith, v.counted, one_less, room, v.small);
      loads = back_loads;
    }

  pub release_session_lem : release_session k n ≡ put_back (close (n.sessions k)) thread
  unfolding release_session dec_session_count_per_thread
  release_session_lem =
      let same = update-same n.sessions k (close (n.sessions k)) in
      let closed : Network = record n { sessions = update n.sessions k (close (n.sessions k)) } in
      let slot : (closed.sessions k).id ≡ k =
        ap (λ s. s.id) same ∙ (close_lem (n.sessions k)).0 ∙ v.named k below in
      ap
        (λ id.
          if points_to (n.active id) k
          then dec_session_count_per_thread k (record closed {
            active = update n.active id none;
            free = n.free ++ (k ∷ []);
            session_count = (n.session_count + (2 ^ 16 - 1)) % 2 ^ 16;
          })
          else closed)
        slot
      ∙ ap
          (λ b.
            if b
            then dec_session_count_per_thread k (record closed {
              active = update n.active k none;
              free = n.free ++ (k ∷ []);
              session_count = (n.session_count + (2 ^ 16 - 1)) % 2 ^ 16;
            })
            else closed)
          {x = points_to (n.active k) k} {y = true} (ap (λ o. points_to o k) used ∙ ground arith)
      ∙ ap (put_back (close (n.sessions k)))
          (ap (λ s. s.thread_id) same ∙ (close_lem (n.sessions k)).1)

  -- `ReleaseSession` of an active session of a sound pool keeps the pool sound, empties its slot, counts one
  -- session less, and puts it, closed, at the end of the free list.
  pub release_session-IsPool :
      let n' = release_session k n in
      IsPool n'
      × (n'.active k ≡ none)
      × (n'.free ≡ n.free ++ (k ∷ []))
      × (suc n'.session_count ≡ n.session_count)
      × (n'.sessions k ≡ close (n.sessions k))
  release_session-IsPool =
      let name = (close_lem (n.sessions k)).0 ∙ v.named k below in
      subst
        (λ m.
          IsPool m
          × (m.active k ≡ none)
          × (m.free ≡ n.free ++ (k ∷ []))
          × (suc m.session_count ≡ n.session_count)
          × (m.sessions k ≡ close (n.sessions k)))
        (sym release_session_lem)
        (
          back-IsPool (close (n.sessions k)) name,
          ground arith,
          refl,
          omega (arith, v.counted, one_less, room, v.small),
          update-same n.sessions k (close (n.sessions k)),
        )
