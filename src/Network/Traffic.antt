-- ===== src/Network/Traffic.antt =====
-- What comes to the pool of Network.cpp from outside: accepted sockets (`AcceptThread`), sockets that
-- the user opens (`ConnectSession`), and the batch of results that an RIO worker takes from its
-- queue. `OnAccept` and `OnConnect` are the user's, given as the calls that they make.
use rio_network.Base.{
  ℕ, ◌≡◌, refl, sym, ap, subst, ◌∙◌, inl, inr, Bool, true, false, Option, none, some, List, [], ◌∷◌,
  arith, ltb, ◌==◌, if◌then◌else◌, if_both, Bool-cases, pos, total_congr, update,
}
use rio_network.Session.{Session, ProcessMode, Reply}
use rio_network.Session.Counts.{closings}
use rio_network.Session.Refs.{release_ref, set_peer_ip, set_target_ip}
use rio_network.Session.Recv.{post_recv}
use rio_network.Session.Process.{Request, perform_all}
use rio_network.Worker.{on_recv, on_send}
use rio_network.Worker.Place.{SamePlace, quiet, join, post_recv-SamePlace, perform_all-SamePlace}
use rio_network.Network.{Network, allocate_session, call, add_closing_session}
use rio_network.Network.Pool.{IsPool, on_thread}
use rio_network.Network.Allocate.{allocate_session-IsPool}

-- One accepted socket; the flag says that the socket was closed again.
pub accept_session : ℕ → Bool → List ℕ → ℕ → List Request → Reply → Network → Network × Bool
accept_session handle created ip port on_accept reply n =
    let (n', found) = allocate_session handle created n in
    elim found [
      | none ↦ (n', true)
      | some k ↦
          (call (λ s. post_recv reply (perform_all on_accept (set_peer_ip ip port s))) k n', false)
    ]

-- `ConnectSession`: `socket` is what `CreateSocket` gave, `connects` whether `connect` succeeded or
-- would block.
pub connect_session :
    Option ℕ
    → Bool
    → Bool
    → List ℕ
    → ℕ
    → List ℕ
    → ℕ
    → List Request
    → Reply
    → Network
    → Network × Option ℕ
connect_session none connects created target target_port ip port on_connect reply n = (n, none)
connect_session (some handle) connects created target target_port ip port on_connect reply n =
    let (n', found) = allocate_session handle created n in
    if connects
    then (elim found [
      | none ↦ (n', none)
      | some k ↦ (
        call
            (λ s.
              post_recv reply
                (perform_all on_connect (set_peer_ip ip port (set_target_ip target target_port s))))
            k n',
        some k,
      )
    ])
    else (n, none)

-- A result of the RIO queue, with its session.
pub data RioResult : Type 0 where
  received : ℕ → ℕ → List ℕ → Reply → RioResult
  sent : ℕ → ℕ → Reply → RioResult
  -- any other io type
  unknown : ℕ → RioResult

unfoldable pub handle_results : ProcessMode → List RioResult → Network → Network
handle_results mode [] n = n
handle_results mode (received k transferred bytes reply ∷ rs) n =
    handle_results mode rs (call (on_recv mode transferred bytes reply) k n)
handle_results mode (sent k transferred reply ∷ rs) n =
    handle_results mode rs (call (on_send transferred reply) k n)
handle_results mode (unknown k ∷ rs) n = handle_results mode rs (call release_ref k n)

module _ {n : Network} (v : IsPool n) (k : ℕ) (s : Session)
    (there : SamePlace (n.sessions k) s) where
  pub kept : (j : ℕ) → SamePlace (n.sessions j) (update n.sessions k s j)
  kept j = elim (Bool-cases (k == j)) [
    | inl this ↦
        let at : k ≡ j = ground arith in rw this (subst (λ x. SamePlace (n.sessions x) s) at there)
    | inr apart ↦ rw apart (quiet refl refl refl)
  ]

  -- A session that stays in its place, and any closing list.
  pub moved-IsPool :
      (l : List ℕ) → IsPool (record n { closing = l; sessions = update n.sessions k s })
  moved-IsPool l = record {
    small = v.small;
    threads = v.threads;
    named = λ j b. (kept j).id ∙ v.named j b;
    slots = v.slots;
    inside = v.inside;
    placed = λ j b. ground (arith, v.placed j b, (kept j).thread);
    counted = v.counted;
    loads = λ t b.
        v.loads t b
        ∙ ap pos (
            total_congr n.max_session_count (on_thread n.active n.sessions t)
              (on_thread n.active (update n.sessions k s) t)
              (λ j c.
                ap (λ x. elim (n.active j) [ none ↦ 0 | some _ ↦ if x == t then 1 else 0 ])
                  (sym (kept j).thread)));
  }

call_at-IsPool :
    (method : Session → Session) (k : ℕ) {n : Network}
    → SamePlace (n.sessions k) (method (n.sessions k))
    → IsPool n
    → IsPool (call method k n)
unfolding call add_closing_session
call_at-IsPool method k {n} same v =
    if_both IsPool (ltb (closings (n.sessions k).out) (closings (method (n.sessions k)).out))
      (moved-IsPool v k (method (n.sessions k)) same _)
      (moved-IsPool v k (method (n.sessions k)) same n.closing)

call-IsPool :
    (method : Session → Session) (k : ℕ) {n : Network}
    → ((s : Session) → SamePlace s (method s))
    → IsPool n
    → IsPool (call method k n)
call-IsPool method k {n} same v = call_at-IsPool method k (same (n.sessions k)) v

set_peer_ip-SamePlace : (ip : List ℕ) (port : ℕ) (s : Session) → SamePlace s (set_peer_ip ip port s)
unfolding set_peer_ip
set_peer_ip-SamePlace ip port s = quiet refl refl refl

set_target_ip-SamePlace :
    (ip : List ℕ) (port : ℕ) (s : Session) → SamePlace s (set_target_ip ip port s)
unfolding set_target_ip
set_target_ip-SamePlace ip port s = quiet refl refl refl

-- An accepted socket keeps a sound pool sound, whatever `OnAccept` calls.
pub accept_session-IsPool :
    (handle : ℕ) (created : Bool) (ip : List ℕ) (port : ℕ) (on_accept : List Request)
    (reply : Reply) {n : Network}
    → IsPool n
    → IsPool (accept_session handle created ip port on_accept reply n).0
unfolding accept_session
accept_session-IsPool handle created ip port on_accept reply {n} v =
    go (allocate_session handle created n).1
  where
    go :
        (o : Option ℕ)
        → IsPool
            (elim o as (λ x. Network × Bool) [
              | none ↦ ((allocate_session handle created n).0, true)
              | some k ↦ (
                call
                    (λ s. post_recv reply (perform_all on_accept (set_peer_ip ip port s)))
                    k
                    (allocate_session handle created n).0,
                false,
              )
            ]).0
    go none = allocate_session-IsPool handle created v
    go (some k) =
        call-IsPool _ k
          (λ s.
            join (set_peer_ip-SamePlace ip port s)
              (join (perform_all-SamePlace on_accept _) (post_recv-SamePlace reply _)))
          (allocate_session-IsPool handle created v)

-- `ConnectSession` keeps a sound pool sound, on every path and whatever `OnConnect` calls.
pub connect_session-IsPool :
    (socket : Option ℕ) (connects created : Bool) (target : List ℕ) (target_port : ℕ) (ip : List ℕ)
    (port : ℕ) (on_connect : List Request) (reply : Reply) {n : Network}
    → IsPool n
    → IsPool
        (connect_session socket connects created target target_port ip port on_connect reply n).0
unfolding connect_session
connect_session-IsPool none connects created target target_port ip port on_connect reply v = v
connect_session-IsPool (some handle) false created target target_port ip port on_connect reply v = v
connect_session-IsPool (some handle) true created target target_port ip port on_connect reply {n}
      v =
    go (allocate_session handle created n).1
  where
    go :
        (o : Option ℕ)
        → IsPool
            (elim o as (λ x. Network × Option ℕ) [
              | none ↦ ((allocate_session handle created n).0, none)
              | some k ↦ (
                call
                    (λ s. post_recv reply (
                      perform_all on_connect
                        (set_peer_ip ip port (set_target_ip target target_port s))))
                    k
                    (allocate_session handle created n).0,
                some k,
              )
            ]).0
    go none = allocate_session-IsPool handle created v
    go (some k) =
        call-IsPool _ k
          (λ s. join (set_target_ip-SamePlace target target_port s) (
            join (set_peer_ip-SamePlace ip port _)
              (join (perform_all-SamePlace on_connect _) (post_recv-SamePlace reply _))))
          (allocate_session-IsPool handle created v)
