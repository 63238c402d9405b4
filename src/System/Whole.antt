-- ===== src/System/Whole.antt =====
-- The invariant of a running Network: its pool, its sessions and its closing list agree.
use rio_network.Base.{
  ◌++◌, ℕ, ◌+◌, ◌≤◌, ◌<◌, ◌≡◌, refl, sym, subst, inl, inr, Bool, true, false, Option, List, [], ◌∷◌,
  arith, ltb, ◌==◌, if◌then◌else◌, Bool-cases, occurs, occurs-append, update,
}
use rio_network.Session.{Session, ProcessMode}
use rio_network.Session.Counts.{closings, on_closes, attaches, fails}
use rio_network.Session.Process.{Callback}
use rio_network.Worker.Life.{Life, Step}
use rio_network.Worker.Method.{is_method, Step-SamePlace}
use rio_network.Worker.Place.{SamePlace}
use rio_network.Worker.Sound.{Sound, Step-Sound}
use rio_network.Network.{Network, call, add_closing_session}
use rio_network.Network.Pool.{IsPool, seated}
use rio_network.Network.Traffic.{moved-IsPool}
use rio_network.System.{System, life, moved}

-- One session, which is `times` on the closing list and has this slot: it is on the list as often
-- as it went there and was not closed yet, and the slot is taken while it is attached and not
-- closed, or after an `Attach` that failed.
pub record Fits (times : ℕ) (slot : Option ℕ) (l : Life) : Type 0 where
  pub sound : Sound l
  pub listed : times + on_closes l.session.out ≡ closings l.session.out
  pub held : seated slot + on_closes l.session.out ≡ attaches l.session.out + fails l.session.out

pub record Whole (y : System) : Type 0 where
  pub pool : IsPool y.network
  pub fits :
      (k : ℕ)
      → k < y.network.max_session_count
      → Fits (occurs k y.network.closing) (y.network.active k) (life y k)
  pub inside : (k : ℕ) → y.network.max_session_count ≤ k → occurs k y.network.closing ≡ 0

call_lem :
    (s : Session) (k : ℕ) (n : Network)
    → call (λ _. s) k n ≡ record n {
      sessions = update n.sessions k s;
      closing =
          if ltb (closings (n.sessions k).out) (closings s.out)
          then n.closing ++ (k ∷ [])
          else n.closing;
    }
unfolding call add_closing_session
call_lem s k n = go (ltb (closings (n.sessions k).out) (closings s.out))
  where
    go :
        (b : Bool)
        → (if b
            then record n { sessions = update n.sessions k s; closing = n.closing ++ (k ∷ []) }
            else record n { sessions = update n.sessions k s })
          ≡ record n {
            sessions = update n.sessions k s;
            closing = if b then n.closing ++ (k ∷ []) else n.closing;
          }
    go true = refl
    go false = refl

-- The list when this session has moved.
abbrev relisted : System → ℕ → Life → List ℕ
relisted y k l =
    if ltb (closings (y.network.sessions k).out) (closings l.session.out)
    then y.network.closing ++ (k ∷ [])
    else y.network.closing

relisted-occurs :
    (y : System) (k : ℕ) (l : Life) (j : ℕ)
    → occurs j (relisted y k l)
      ≡ occurs j y.network.closing
        + (if ltb (closings (y.network.sessions k).out) (closings l.session.out)
            then (if k == j then 1 else 0)
            else 0)
relisted-occurs y k l j =
    elim (Bool-cases (ltb (closings (y.network.sessions k).out) (closings l.session.out))) [
      | inl more ↦ rw more (omega (arith, occurs-append j y.network.closing (k ∷ [])))
      | inr same ↦ rw same (omega arith)
    ]

module _ {mode : ProcessMode} {on_dispatch : Session → List ℕ → Callback} where
  pub method-Whole :
      {y : System} {k : ℕ} {l : Life}
      → Whole y
      → k < y.network.max_session_count
      → (st : Step mode on_dispatch (life y k) l) → is_method st ≡ true
      → Whole (moved y k l)
  method-Whole {y} {k} {l} w below st m =
      subst (λ n. Whole (record { network = n; answered = update y.answered k l.answered }))
        (sym (call_lem l.session k y.network))
        (record {
          pool = moved-IsPool w.pool k l.session place (relisted y k l);
          fits = fits;
          inside = λ j b. ground (arith, relisted-occurs y k l j, w.inside j b);
        })
    where
      old : Fits (occurs k y.network.closing) (y.network.active k) (life y k)
      old = w.fits k below

      place : SamePlace (y.network.sessions k) l.session
      place = Step-SamePlace st m

      here : Fits (occurs k (relisted y k l)) (y.network.active k) l
      here =
          let new = Step-Sound mode on_dispatch st old.sound in
          record {
            sound = new;
            listed = ground (
              arith,
              relisted-occurs y k l k,
              old.listed,
              place.grows,
              place.closed,
              new.counted.queued,
            );
            held = omega (arith, old.held, place.closed, place.attached, place.failed);
          }

      fits :
          (j : ℕ)
          → j < y.network.max_session_count
          → Fits (occurs j (relisted y k l)) (y.network.active j) (record {
            session = update y.network.sessions k l.session j;
            answered = update y.answered k l.answered j;
          })
      fits j b = elim (Bool-cases (k == j)) [
        | inl this ↦
            let at : k ≡ j = ground arith in
            rw this (subst (λ i. Fits (occurs i (relisted y k l)) (y.network.active i) l) at here)
        | inr apart ↦
            let other = w.fits j b in
            rw apart (record {
              sound = other.sound;
              listed = ground (arith, relisted-occurs y k l j, other.listed);
              held = other.held;
            })
      ]
