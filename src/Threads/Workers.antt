-- ===== src/Threads/Workers.antt =====
-- The workers of one completion port, whatever the other threads do.
use rio_network.Base.{
  ℕ, suc, ◌+◌, ◌≤◌, ◌<◌, ◌≡◌, refl, ap, ◌⊎◌, inl, inr, Bool, true, false, List, [], ◌∷◌, ◌++◌, ◌∙◌,
  arith, ◌==◌, Bool-cases, total, total-update, le-total,
}
use rio_network.Threads.{
  Completion, quit, request, failed, Pc, testing, waiting, handling, ended, Turn, enter, leave,
  quits, takes, fails, sleeps, breaks, fetches, handled, Port, WorkerStep, turn,
}

-- How many steps a worker has left once `m_Running` is false.
abbrev pub steps_left : Pc → ℕ
steps_left testing = 1
steps_left waiting = 3
steps_left handling = 2
steps_left ended = 0

abbrev pub live : Pc → ℕ
live ended = 0
live _ = 1

abbrev pub quit_count : List Completion → ℕ
quit_count [] = 0
quit_count (quit ∷ q) = suc (quit_count q)
quit_count (request ∷ q) = quit_count q
quit_count (failed ∷ q) = quit_count q

pub quit_count-append :
    (q q' : List Completion) → quit_count (q ++ q') ≡ quit_count q + quit_count q'
quit_count-append [] q' = omega arith
quit_count-append (quit ∷ q) q' = omega (arith, quit_count-append q q')
quit_count-append (request ∷ q) q' = quit_count-append q q'
quit_count-append (failed ∷ q) q' = quit_count-append q q'

unfoldable pub port_steps : ℕ → Port → ℕ
port_steps count p = total count (λ i. steps_left (p.workers i))

unfoldable pub live_count : ℕ → Port → ℕ
live_count count p = total count (λ i. live (p.workers i))

Turn-steps_left :
    {polls : Bool} {q q' : List Completion} {pc pc' : Pc}
    → Turn polls false q pc q' pc'
    → steps_left pc' < steps_left pc
Turn-steps_left (enter e) = ground arith
Turn-steps_left (leave e) = omega arith
Turn-steps_left (quits e) = omega arith
Turn-steps_left (takes e) = omega arith
Turn-steps_left (fails e) = omega arith
Turn-steps_left (sleeps e) = omega arith
Turn-steps_left (breaks e) = omega arith
Turn-steps_left (fetches e) = omega arith
Turn-steps_left handled = omega arith

-- Once `m_Running` is false, every step brings the workers nearer to their end.
pub WorkerStep-port_steps :
    {polls : Bool} {count : ℕ} {p p' : Port}
    → WorkerStep polls count false p p'
    → port_steps count p' < port_steps count p
unfolding port_steps
WorkerStep-port_steps {count} {p} (turn i {q} {pc} b t) =
    omega (arith, total-update steps_left count p.workers i pc b, Turn-steps_left t)

-- Without polling, a worker ends only with the null key that it takes, or past its test.
Turn-quit_count :
    {is_running : Bool} {q q' : List Completion} {pc pc' : Pc}
    → Turn false is_running q pc q' pc'
    → live pc' + quit_count q ≤ live pc + quit_count q'
Turn-quit_count (enter e) = omega arith
Turn-quit_count (leave e) = omega arith
Turn-quit_count (quits e) = omega arith
Turn-quit_count (takes e) = omega arith
Turn-quit_count (fails e) = omega arith
Turn-quit_count (sleeps e) = ground arith
Turn-quit_count (breaks e) = ground arith
Turn-quit_count (fetches e) = ground arith
Turn-quit_count handled = omega arith

pub WorkerStep-live_count :
    {is_running : Bool} {count : ℕ} {p p' : Port} (more : ℕ)
    → WorkerStep false count is_running p p'
    → live_count count p ≤ quit_count p.queue + more
    → live_count count p' ≤ quit_count p'.queue + more
unfolding live_count
WorkerStep-live_count {count} {p} more (turn i {q} {pc} b t) h =
    omega (arith, total-update live count p.workers i pc b, Turn-quit_count t, h)

-- A worker that has ended stays so.
Turn-ended :
    {polls is_running : Bool} {q q' : List Completion} {pc pc' : Pc}
    → Turn polls is_running q pc q' pc'
    → pc ≡ ended
    → pc' ≡ ended
Turn-ended (enter e) h = ground arith
Turn-ended (leave e) h = refl
Turn-ended (quits e) h = refl
Turn-ended (takes e) h = ground arith
Turn-ended (fails e) h = ground arith
Turn-ended (sleeps e) h = ground arith
Turn-ended (breaks e) h = refl
Turn-ended (fetches e) h = ground arith
Turn-ended handled h = ground arith

pub WorkerStep-ended :
    {polls is_running : Bool} {count : ℕ} {p p' : Port} (i : ℕ)
    → WorkerStep polls count is_running p p'
    → p.workers i ≡ ended
    → p'.workers i ≡ ended
WorkerStep-ended {p} i (turn j {q} {pc} b t) e = elim (Bool-cases (j == i)) [
  | inl this ↦ let at : j ≡ i = ground arith in rw this (Turn-ended t (ap p.workers at ∙ e))
  | inr other ↦ rw other e
]

-- A step of worker `i` from what its port holds.
Next : Bool → Bool → ℕ → Port → Type 0
Next polls is_running count p = (p' : Port) × WorkerStep polls count is_running p p'

take-Next :
    (is_running : Bool) (count : ℕ) (p : Port) (i : ℕ)
    → i < count
    → p.workers i ≡ waiting
    → (q : List Completion) → p.queue ≡ q
    → 0 < quit_count q
    → Next false is_running count p
unfolding Next
take-Next is_running count p i b e [] at enough = absurd (omega arith)
take-Next is_running count p i b e (quit ∷ q) at enough =
    (_, turn i {q = q} {pc = ended} b (rw (at, e) (quits refl)))
take-Next is_running count p i b e (request ∷ q) at enough =
    (_, turn i {q = q} {pc = handling} b (rw (at, e) (takes refl)))
take-Next is_running count p i b e (failed ∷ q) at enough =
    (_, turn i {q = q} {pc = testing} b (rw (at, e) (fails refl)))

wait-Next :
    (polls is_running : Bool) (count : ℕ) (p : Port) (i : ℕ)
    → i < count
    → p.workers i ≡ waiting
    → (polls ≡ true) ⊎ (0 < quit_count p.queue)
    → Next polls is_running count p
unfolding Next
wait-Next true is_running count p i b e enough =
    (_, turn i {q = p.queue} {pc = testing} b (rw e (sleeps refl)))
wait-Next false is_running count p i b e (inl polls) = absurd (ground arith)
wait-Next false is_running count p i b e (inr enough) =
    take-Next is_running count p i b e p.queue refl enough

-- A port where the null keys suffice lets each live worker move.
pub can_move :
    (polls is_running : Bool) (count : ℕ) (p : Port) (i : ℕ)
    → i < count
    → (polls ≡ true) ⊎ (live_count count p ≤ quit_count p.queue)
    → (p.workers i ≡ ended) ⊎ ((p' : Port) × WorkerStep polls count is_running p p')
unfolding Next live_count
can_move polls is_running count p i b enough = go (p.workers i) refl is_running refl
  where
    go :
        (pc : Pc)
        → p.workers i ≡ pc
        → (r : Bool) → is_running ≡ r
        → (p.workers i ≡ ended) ⊎ ((p' : Port) × WorkerStep polls count is_running p p')
    go testing e true on = inr (_, turn i {q = p.queue} {pc = waiting} b (rw e (enter on)))
    go testing e false off = inr (_, turn i {q = p.queue} {pc = ended} b (rw e (leave off)))
    go waiting e r on = inr (
        wait-Next polls is_running count p i b e (elim enough [
          | inl polling ↦ inl polling
          | inr h ↦ inr (omega (arith, h, ap live e, le-total count (λ j. live (p.workers j)) i b))
        ]))
    go handling e r on = inr (_, turn i {q = p.queue} {pc = testing} b (rw e handled))
    go ended e r on = inl e
