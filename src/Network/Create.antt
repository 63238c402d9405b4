-- ===== src/Network/Create.antt =====
-- `CreateSessionPool` and `Start` of Network.cpp, whose loops count an `unsigned short`.
use rio_network.Base.{
  ℕ, zero, suc, ◌+◌, ◌≤◌, ◌<◌, ◌^◌, ◌%◌, ◌≡◌, refl, sym, ap, ◌∙◌, inl, inr, true, Option, none,
  some, List, [], ◌∷◌, ◌++◌, arith, ltb, ◌==◌, if◌then◌else◌, pos, occurs, occurs-append,
  total-zero, update, Bool-cases,
}
use rio_network.Session.{Session}
use rio_network.Network.{
  Network, clear_active, fill_free, push_free_session, create_session_pool, start, Started, running,
  hung, threw,
}
use rio_network.Network.Pool.{IsPool, seated, on_thread}

-- The next index is no smaller than the bound only past it.
next : (i max : ℕ) → i < max → max ≤ 65535 → (i + 1) % 2 ^ 16 ≡ i + 1
next i max h k = omega arith

clear_active_lem :
    (fuel i : ℕ) (n : Network)
    → n.max_session_count ≤ 65535
    → i ≤ n.max_session_count
    → n.max_session_count < fuel + i
    → ((j : ℕ) → j < i → n.active j ≡ none)
    → (f : ℕ → Option ℕ) × (clear_active fuel i n ≡ some (record n { active = f }))
      × ((j : ℕ) → j < n.max_session_count → f j ≡ none)
unfolding clear_active
clear_active_lem zero i n small within enough before = absurd (omega arith)
clear_active_lem (suc fuel) i n small within enough before =
    elim (Bool-cases (ltb i n.max_session_count)) [
      | inl more ↦
          let cleared : Network = record n { active = update n.active i none } in
          let step : i < n.max_session_count = ground arith in
          let (f, ran, all) =
            clear_active_lem fuel (i + 1) cleared small (omega arith) (omega arith)
              (λ j l. ground (arith, before j)) in
          (
            f,
            rw more (
                ap (λ x. clear_active fuel x cleared) (next i n.max_session_count step small)
                ∙ ran),
            all,
          )
      | inr past ↦ (n.active, rw past refl, λ j l. before j (ground arith))
    ]

fill_free_lem :
    (make : ℕ → Session) (fuel i : ℕ) (n : Network)
    → n.max_session_count ≤ 65535
    → i ≤ n.max_session_count
    → n.max_session_count < fuel + i
    → ((j : ℕ) → j < i → n.sessions j ≡ make j)
    → ((j : ℕ) → occurs j n.free ≡ (if ltb j i then 1 else 0))
    → (f : ℕ → Session) × (l : List ℕ) × (fill_free make fuel i n
        ≡ some (record n { sessions = f; free = l }))
      × ((j : ℕ) → j < n.max_session_count → f j ≡ make j)
      × ((j : ℕ) → occurs j l ≡ (if ltb j n.max_session_count then 1 else 0))
unfolding fill_free push_free_session
fill_free_lem make zero i n small within enough before listed = absurd (omega arith)
fill_free_lem make (suc fuel) i n small within enough before listed =
    elim (Bool-cases (ltb i n.max_session_count)) [
      | inl more ↦
          let pushed : Network = record n {
            sessions = update n.sessions i (make i);
            free = n.free ++ (i ∷ []);
          } in
          let step : i < n.max_session_count = ground arith in
          let (f, l, ran, all, once) =
            fill_free_lem make fuel (i + 1) pushed small (omega arith) (omega arith)
              (λ j b. made j b) (λ j. ground (arith, listed j, occurs-append j n.free (i ∷ []))) in
          (
            f,
            l,
            rw more (
                ap (λ x. fill_free make fuel x pushed) (next i n.max_session_count step small)
                ∙ ran),
            all,
            once,
          )
      | inr past ↦
          let last : i ≡ n.max_session_count = ground arith in
          (
            n.sessions,
            n.free,
            rw past refl,
            λ j l. before j (ground arith),
            λ j. listed j ∙ ap (λ x. if ltb j x then 1 else 0) last,
          )
    ]
  where
    made : (j : ℕ) → j < i + 1 → update n.sessions i (make i) j ≡ make j
    made j b = elim (Bool-cases (i == j)) [
      | inl this ↦ let at : i ≡ j = ground arith in rw this (ap make at)
      | inr apart ↦ rw apart (before j (ground arith))
    ]

-- What `Start` does once the first loop has ended, and the second.
abbrev filled : Option Network → Started
filled none = hung
filled (some made) = running (record made { per_thread = λ t. pos 0 })

abbrev cleared : (ℕ → Session) → ℕ → Option Network → Option Network
cleared make fuel none = none
cleared make fuel (some n) = fill_free make fuel 0 n

start_lem :
    (make : ℕ → Session) (fuel processors : ℕ) (n : Network)
    → start make fuel processors true n
      ≡ filled (
          cleared make fuel (
            clear_active fuel 0 (record n {
              io_thread_count = if n.io_thread_count == 0 then processors else n.io_thread_count;
              session_count = 0;
            })))
unfolding start create_session_pool
start_lem make fuel processors n = go _
  where
    go :
        (o : Option Network)
        → (elim o [
          | none ↦ hung
          | some made ↦ if true then running (record made { per_thread = λ t. pos 0 }) else threw
        ])
          ≡ filled o
    go none = refl
    go (some made) = refl

-- All that `Start` makes.
pub start-Made :
    (make : ℕ → Session) (fuel processors : ℕ) (n : Network)
    → ((i : ℕ) → (make i).id ≡ i)
    → n.max_session_count ≤ 65535
    → n.max_session_count < fuel
    → 0 < processors
    → n.free ≡ []
    → (n' : Network) × (start make fuel processors true n ≡ running n')
      × IsPool n'
      × (n'.session_count ≡ 0)
      × (n'.max_session_count ≡ n.max_session_count)
      × (n'.closing ≡ n.closing)
      × ((k : ℕ) → k < n.max_session_count → (n'.active k ≡ none) × (n'.sessions k ≡ make k))
start-Made make fuel processors n named small enough some_processor unused =
    let begun : Network = record n {
      io_thread_count = if n.io_thread_count == 0 then processors else n.io_thread_count;
      session_count = 0;
    } in
    let (active, ran, empty) =
      clear_active_lem fuel 0 begun small (omega arith) (omega arith)
        (λ j l. absurd (omega arith)) in
    let (sessions, free, ran', all, once) =
      fill_free_lem make fuel 0 (record begun { active = active }) small (omega arith) (omega arith)
        (λ j l. absurd (omega arith)) (λ j. ap (occurs j) unused ∙ ground arith) in
    (
      record begun { active = active; sessions = sessions; free = free; per_thread = λ t. pos 0 },
      start_lem make fuel processors n
          ∙ ap (λ o. filled (cleared make fuel o)) ran
          ∙ ap filled ran',
      record {
        small = small;
        threads = ground arith;
        named = λ k l. ap (λ s. s.id) (all k l) ∙ named k;
        slots = λ k l. inl (empty k l, once k ∙ ground arith);
        inside = λ k l. once k ∙ ground arith;
        placed = λ k l. inl (empty k l);
        counted = sym (
            total-zero n.max_session_count (λ k. seated (active k)) (λ k l. ap seated (empty k l)));
        loads = λ t l. ap pos (
            sym (
              total-zero n.max_session_count (on_thread active sessions t)
                (λ k b. ground (arith, empty k b))));
      },
      refl,
      refl,
      refl,
      λ k l. (empty k l, all k l),
    )

-- `Start` with at most 65535 sessions, whose constructor gives each its index, with at least one
-- processor, an empty free list and an io model that starts, ends when its loops have one round
-- more than there are sessions, and leaves a sound pool that counts no session as active.
pub start-IsPool :
    (make : ℕ → Session) (fuel processors : ℕ) (n : Network)
    → ((i : ℕ) → (make i).id ≡ i)
    → n.max_session_count ≤ 65535
    → n.max_session_count < fuel
    → 0 < processors
    → n.free ≡ []
    → (n' : Network) × (start make fuel processors true n ≡ running n')
      × IsPool n'
      × (n'.session_count ≡ 0)
start-IsPool make fuel processors n named small enough some_processor unused =
    let r = start-Made make fuel processors n named small enough some_processor unused in
    (r.0, r.1, r.2, r.3)

-- The first loop of `CreateSessionPool` with more sessions than an `unsigned short` can count.
clear_active-none :
    (fuel i : ℕ) (n : Network)
    → 65535 < n.max_session_count
    → i < 2 ^ 16
    → clear_active fuel i n ≡ none
unfolding clear_active
clear_active-none zero i n large within = refl
clear_active-none (suc fuel) i n large within =
    let more : ltb i n.max_session_count ≡ true = ground arith in
    rw more (
      clear_active-none fuel ((i + 1) % 2 ^ 16) (record n { active = update n.active i none }) large
        (omega arith))

-- `Start` with more than 65535 sessions has not ended after any number of rounds of its loops.
pub start-hung :
    (make : ℕ → Session) (fuel processors : ℕ) (n : Network)
    → 65535 < n.max_session_count
    → start make fuel processors true n ≡ hung
start-hung make fuel processors n large =
    start_lem make fuel processors n
    ∙ ap (λ o. filled (cleared make fuel o)) (clear_active-none fuel 0 _ large (omega arith))
