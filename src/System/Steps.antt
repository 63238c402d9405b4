-- ===== src/System/Steps.antt =====
-- `AllocateSession` and the closing thread keep the invariant of a running Network, and `Start` makes
-- it.
use rio_network.Base.{
  ℕ, suc, ◌+◌, ◌≤◌, ◌<◌, ◌≡◌, refl, sym, ap, subst, ◌∙◌, inl, inr, Bool, true, false, Option, none,
  some, List, [], ◌∷◌, arith, ltb, ◌==◌, if◌then◌else◌, Bool-cases, occurs, update,
}
use rio_network.Session.{Session, ProcessMode, on_close}
use rio_network.Session.Counts
use rio_network.Session.Counts.{Answered, closings, on_closes, attaches, fails}
use rio_network.Session.Process.{Callback}
use rio_network.Session.Refs.{attach, set_thread_id, close}
use rio_network.Worker.Life.{Life, shut, reopen}
use rio_network.Worker.Sound.{Sound, Step-Sound}
use rio_network.Network.{
  Network, allocate_session, release_session, closing_round, waits, ended, released,
}
use rio_network.Network.Pool.{IsPool}
use rio_network.Network.Allocate.{allocate_session-IsPool, allocate_session-Seated}
use rio_network.Network.Release.{release_session-IsPool, release_session_lem}
use rio_network.System.{System, life}
use rio_network.System.Whole.{Fits, Whole}

-- `Attach` notes the handle once, taken or refused.
attach_out :
    (handle : ℕ) (created : Bool) (s : Session)
    → let out = (attach handle created s).out in
      (on_closes out ≡ on_closes s.out)
      × (closings out ≡ closings s.out)
      × (attaches out + fails out ≡ suc (attaches s.out + fails s.out))
unfolding attach
attach_out handle created s = ground arith

-- The thread of a session that nobody holds may change.
set_thread_id-Sound :
    (thread : ℕ) (l : Life)
    → Sound l
    → Sound (record l { session = set_thread_id thread l.session })
unfolding set_thread_id
set_thread_id-Sound thread l h = record {
  counted = Counts.same_books h.counted refl;
  alone = record { recv = h.alone.recv; send = h.alone.send; proc = h.alone.proc };
}

-- One session of the system changes, and its slot.
module _ {y : System} (w : Whole y) {k : ℕ} (s : Session) (slot : Option ℕ) (closing : List ℕ)
    (here : Fits (occurs k closing) slot (record { session = s; answered = y.answered k }))
    (others : (j : ℕ) → (k == j) ≡ false → occurs j closing ≡ occurs j y.network.closing) where
  changed-Fits :
      (j : ℕ)
      → j < y.network.max_session_count
      → Fits
          (occurs j closing)
          (update y.network.active k slot j)
          (record { session = update y.network.sessions k s j; answered = y.answered j })
  changed-Fits j b = elim (Bool-cases (k == j)) [
    | inl this ↦
        let at : k ≡ j = ground arith in
        rw this (
          subst
            (λ i. Fits (occurs i closing) slot (record { session = s; answered = y.answered i })) at
            here)
    | inr apart ↦
        let other = w.fits j b in
        rw apart (record {
          sound = other.sound;
          listed = omega (arith, others j apart, other.listed);
          held = other.held;
        })
  ]

-- Another pool with these parts.
renewed-Whole :
    (y : System) {n : Network} {closing : List ℕ} {active : ℕ → Option ℕ} {sessions : ℕ → Session}
    → IsPool n
    → n.max_session_count ≡ y.network.max_session_count
    → n.closing ≡ closing
    → n.active ≡ active
    → n.sessions ≡ sessions
    → ((j : ℕ)
        → j < y.network.max_session_count
        → Fits
            (occurs j closing)
            (active j)
            (record { session = sessions j; answered = y.answered j }))
    → ((j : ℕ) → y.network.max_session_count ≤ j → occurs j closing ≡ 0)
    → Whole (record y { network = n })
renewed-Whole y {n} {closing} {active} {sessions} v bound c a s fits inside = record {
  pool = v;
  fits = λ j b.
      subst (λ l. Fits (occurs j l) (n.active j) (life (record y { network = n }) j)) (sym c)
        (subst (λ f. Fits (occurs j closing) (f j) (life (record y { network = n }) j)) (sym a)
          (subst
            (λ g.
              Fits (occurs j closing) (active j)
                (record { session = g j; answered = y.answered j }))
            (sym s) (fits j (omega (arith, bound, b)))));
  inside = λ j b. ap (occurs j) c ∙ inside j (omega (arith, bound, b));
}

closing_round_lem :
    (is_running : Bool) (n : Network) {n' : Network}
    → closing_round is_running n ≡ released n'
    → (k : ℕ) × (rest : List ℕ) × (n.closing ≡ k ∷ rest)
      × (release_session k (record n { closing = rest }) ≡ n')
unfolding closing_round
closing_round_lem is_running n {n'} e = go n.closing refl is_running e
  where
    go :
        (c : List ℕ)
        → n.closing ≡ c
        → (b : Bool)
        → (elim c [
          | [] ↦ if b then waits else ended
          | k ∷ rest ↦ released (release_session k (record n { closing = rest }))
        ])
          ≡ released n'
        → (k : ℕ) × (rest : List ℕ) × (n.closing ≡ k ∷ rest)
          × (release_session k (record n { closing = rest }) ≡ n')
    go [] q true f = absurd (cc)
    go [] q false f = absurd (cc)
    go (k ∷ rest) q b f = (k, rest, q, cc)

-- The closing list is no part of the pool's invariant.
relist-IsPool : (l : List ℕ) {n : Network} → IsPool n → IsPool (record n { closing = l })
relist-IsPool l v = record {
  small = v.small;
  threads = v.threads;
  named = v.named;
  slots = v.slots;
  inside = v.inside;
  placed = v.placed;
  counted = v.counted;
  loads = v.loads;
}

-- The first session of the closing list.
first_closing :
    {y : System}
    → Whole y
    → (k : ℕ) (rest : List ℕ) → y.network.closing ≡ k ∷ rest
    → (k < y.network.max_session_count)
      × (y.network.active k ≡ some k)
      × (occurs k y.network.closing ≡ suc (occurs k rest))
first_closing {y} w k rest e =
    let once : occurs k y.network.closing ≡ suc (occurs k rest) = ap (occurs k) e ∙ ground arith in
    elim (Bool-cases (ltb k y.network.max_session_count)) [
      | inl more ↦
          let below : k < y.network.max_session_count = ground arith in
          let f = w.fits k below in
          (below, ground (arith, f.held, f.listed, f.sound.counted, w.pool.slots k below), once)
      | inr less ↦ absurd (omega (arith, once, w.inside k (ground arith)))
    ]

-- What a round of the closing thread leaves: the first session of its list, which is active, is
-- closed and gone from the list, and its slot is empty.
pub record Closed (n n' : Network) (k : ℕ) (rest : List ℕ) : Type 0 where
  pub below : k < n.max_session_count
  pub used : n.active k ≡ some k
  pub front : n.closing ≡ k ∷ rest
  pub pool : IsPool n'
  pub bound : n'.max_session_count ≡ n.max_session_count
  pub closing : n'.closing ≡ rest
  pub active : n'.active ≡ update n.active k none
  pub sessions : n'.sessions ≡ update n.sessions k (close (n.sessions k))

pub closing_round-Closed :
    {y : System} (is_running : Bool) {n : Network}
    → Whole y
    → closing_round is_running y.network ≡ released n
    → (k : ℕ) × (rest : List ℕ) × Closed y.network n k rest
closing_round-Closed {y} is_running {n} w e =
    let (k, rest, front, same) = closing_round_lem is_running y.network e in
    let (below, used, once) = first_closing w k rest front in
    let v = relist-IsPool rest w.pool in
    let shape = sym same ∙ release_session_lem v below used in
    (
      k,
      rest,
      record {
        below = below;
        used = used;
        front = front;
        pool = subst IsPool same (release_session-IsPool v below used).0;
        bound = ap (λ m. m.max_session_count) shape;
        closing = ap (λ m. m.closing) shape;
        active = ap (λ m. m.active) shape;
        sessions = ap (λ m. m.sessions) shape;
      },
    )

module _ (mode : ProcessMode) (on_dispatch : Session → List ℕ → Callback) where
  attached-Fits :
      (handle : ℕ) (created : Bool) (thread times : ℕ) (k : ℕ) (l : Life)
      → Fits times none l
      → Fits times
          (some k)
          (record l { session = attach handle created (set_thread_id thread l.session) })
  attached-Fits handle created thread times k l f =
      let t : Life = record l { session = set_thread_id thread l.session } in
      let same : t.session.out ≡ l.session.out = unfold set_thread_id in refl in
      let free : on_closes t.session.out ≡ attaches t.session.out + fails t.session.out =
        omega (arith, f.held, ap on_closes same, ap attaches same, ap fails same) in
      let out = attach_out handle created t.session in
      record {
        sound =
            Step-Sound mode on_dispatch (reopen t handle created free)
              (set_thread_id-Sound thread l f.sound);
        listed = omega (arith, f.listed, out, ap on_closes same, ap closings same);
        held = omega (arith, f.held, out, ap on_closes same, ap attaches same, ap fails same);
      }

  pub allocate-Whole :
      {y : System} (handle : ℕ) (created : Bool)
      → Whole y
      → Whole (record y { network = (allocate_session handle created y.network).0 })
  allocate-Whole {y} handle created w = elim (allocate_session-Seated handle created w.pool) [
    | inl same ↦ subst (λ n. Whole (record y { network = n })) (sym same) w
    | inr (k, t) ↦
        renewed-Whole y (allocate_session-IsPool handle created w.pool) t.bound t.closing t.active
          t.sessions
          (changed-Fits w _ (some k) y.network.closing
            (attached-Fits handle created _ _ k (life y k) (
              subst (λ slot. Fits (occurs k y.network.closing) slot (life y k)) t.unused
                (w.fits k t.below)))
            (λ j apart. refl))
          w.inside
  ]

  -- A session of the closing list, once closed.
  closed-Fits :
      (times : ℕ) (k : ℕ) (l : Life)
      → Fits (suc times) (some k) l
      → Fits times none (record l { session = close l.session })
  closed-Fits times k l f =
      let out : (close l.session).out ≡ on_close ∷ l.session.out = unfold close in refl in
      record {
        sound = Step-Sound mode on_dispatch (shut l (omega (arith, f.listed))) f.sound;
        listed = omega (arith, f.listed, ap on_closes out, ap closings out);
        held = omega (
          arith,
          f.held,
          f.listed,
          ap on_closes out,
          ap attaches out,
          ap fails out,
          f.sound.counted,
        );
      }

  pub close-Whole :
      {y : System} (is_running : Bool) {n : Network}
      → Whole y
      → closing_round is_running y.network ≡ released n
      → Whole (record y { network = n })
  close-Whole {y} is_running {n} w e =
      let (k, rest, c) = closing_round-Closed is_running w e in
      let once = (first_closing w k rest c.front).2 in
      renewed-Whole y c.pool c.bound c.closing c.active c.sessions
        (changed-Fits w (close (y.network.sessions k)) none rest
          (closed-Fits (occurs k rest) k (life y k) (
            subst (λ slot. Fits (suc (occurs k rest)) slot (life y k)) c.used
              (subst (λ t. Fits t (y.network.active k) (life y k)) once (w.fits k c.below))))
          (λ j apart. ground (arith, ap (occurs j) c.front)))
        (λ j b. ground (arith, ap (occurs j) c.front, w.inside j b))
