-- ===== src/Dummy/Members.antt =====
-- The sessions of DummyServer.cpp: `AddNet` and `RemoveNet` against the set of the sessions that were
-- accepted and not closed.
use rio_network.Base.{
  ℕ, suc, ◌≤◌, ◌≡◌, refl, sym, ap, subst, ◌∙◌, ◌⊎◌, inl, inr, Bool, true, false, none, some, List,
  [], ◌∷◌, ◌++◌, arith, ◌==◌, if◌then◌else◌, Bool-cases, update, occurs, occurs-append, count_flag,
}
use rio_network.Dummy.Nets.{
  NetMap, map_find, map_erase, receivers, DummyServer, new_server, add_net, remove_net,
  get_player_net, broadcast, NetEvent, on_accept, on_close, run_events,
}
use rio_network.Dummy.Map.{
  Ordered, insert_last, find_last, find_first, map_find-append, map_find-erase_same,
  map_find-erase_other, receivers-map_erase, Ordered-map_erase, Ordered-append, receivers-append,
}

-- The sessions that are connected after these events.
abbrev pub connected : List NetEvent → (ℕ → Bool) → ℕ → Bool
connected [] c = c
connected (on_accept k ∷ es) c = connected es (update c k true)
connected (on_close k ∷ es) c = connected es (update c k false)

-- Class Session calls `OnAccept` of a session only when it is not connected.
abbrev pub Alternates : List NetEvent → (ℕ → Bool) → Type 0
Alternates [] c = Unit {0}
Alternates (on_accept k ∷ es) c = (c k ≡ false) × Alternates es (update c k true)
Alternates (on_close k ∷ es) c = Alternates es (update c k false)

record Sound (c : ℕ → Bool) (d : DummyServer) : Type 0 where
  ordered : Ordered 0 d.map_net d.max_no
  bounded : (k : ℕ) → d.no_of k ≤ d.max_no
  distinct : (j k : ℕ) → d.no_of j ≡ d.no_of k → (j ≡ k) ⊎ (d.no_of k ≡ 0)
  looks : (k : ℕ) → map_find (d.no_of k) d.map_net ≡ (if c k then some k else none)
  present : (k : ℕ) → occurs k (receivers d.map_net) ≡ count_flag (c k)

added : ℕ → DummyServer → DummyServer
added net d = record {
  max_no = suc d.max_no;
  map_net = d.map_net ++ ((suc d.max_no, net) ∷ []);
  no_of = update d.no_of net (suc d.max_no);
}

-- `AddNet` never finds its key in the map.
add_net_lem :
    (net : ℕ) {c : ℕ → Bool} {d : DummyServer} → Sound c d → add_net net d ≡ (added net d, true)
unfolding add_net added
add_net_lem net {c} {d} s =
    let at = insert_last (suc d.max_no) net 0 d.map_net d.max_no s.ordered (omega arith) in
    ap
      (λ (r : NetMap × Bool). (
        record { max_no = suc d.max_no; map_net = r.0; no_of = update d.no_of net (suc d.max_no) },
        r.1,
      ))
      at

added-Sound :
    (net : ℕ) {c : ℕ → Bool} {d : DummyServer}
    → c net ≡ false
    → Sound c d
    → Sound (update c net true) (added net d)
unfolding added
added-Sound net {c} {d} absent s = record {
  ordered = Ordered-append (suc d.max_no) net 0 d.map_net d.max_no s.ordered (omega arith);
  bounded = λ k. ground (arith, s.bounded k);
  distinct = λ j k e. ground (arith, s.bounded j, s.bounded k, s.distinct j k, e);
  looks = λ k. elim (Bool-cases (net == k)) [
    | inl this ↦ rw this (
        map_find-append (suc d.max_no) (suc d.max_no) net d.map_net
        ∙ ground
            (arith, this, find_last (suc d.max_no) 0 d.map_net d.max_no s.ordered (omega arith)))
    | inr other ↦ rw other (
        map_find-append (d.no_of k) (suc d.max_no) net d.map_net
        ∙ ground (arith, s.bounded k, s.looks k))
  ];
  present = λ k.
      ap (occurs k) (receivers-append (suc d.max_no) net d.map_net)
      ∙ occurs-append k (receivers d.map_net) (net ∷ [])
      ∙ elim (Bool-cases (net == k)) [
        | inl this ↦
            let at : net ≡ k = ground arith in ground (arith, this, s.present k, absent, ap c at)
        | inr other ↦ ground (arith, other, s.present k)
      ];
}

removed : ℕ → DummyServer → DummyServer
removed net d = record d { map_net = map_erase (d.no_of net) d.map_net }

remove_net-absent :
    (net : ℕ) (d : DummyServer)
    → map_find (d.no_of net) d.map_net ≡ none
    → remove_net net d ≡ (d, true)
unfolding remove_net
remove_net-absent net d e = rw (e, remove_net) refl

remove_net-present :
    (net : ℕ) (d : DummyServer) {v : ℕ}
    → map_find (d.no_of net) d.map_net ≡ some v
    → remove_net net d ≡ (removed net d, true)
unfolding remove_net removed
remove_net-present net d e = rw (e, remove_net) refl

-- A session that was not connected: nothing changes.
absent-Sound :
    (net : ℕ) {c : ℕ → Bool} {d : DummyServer}
    → c net ≡ false
    → Sound c d
    → Sound (update c net false) d
absent-Sound net {c} {d} absent s = record {
  ordered = s.ordered;
  bounded = s.bounded;
  distinct = s.distinct;
  looks = λ k. s.looks k ∙ ap (λ b. if b then some k else none) (same k);
  present = λ k. s.present k ∙ ap count_flag (same k);
}
  where
    same : (k : ℕ) → c k ≡ update c net false k
    same k = elim (Bool-cases (net == k)) [
      | inl this ↦ let at : net ≡ k = ground arith in rw this (ap c (sym at) ∙ absent)
      | inr other ↦ rw other refl
    ]

removed-Sound :
    (net : ℕ) {c : ℕ → Bool} {d : DummyServer}
    → c net ≡ true
    → Sound c d
    → Sound (update c net false) (removed net d)
unfolding removed
removed-Sound net {c} {d} connected_before s = record {
  ordered = Ordered-map_erase (d.no_of net) 0 d.map_net d.max_no s.ordered;
  bounded = s.bounded;
  distinct = s.distinct;
  looks = λ k. elim (Bool-cases (net == k)) [
    | inl this ↦
        let at : net ≡ k = ground arith in
        rw this (
          ap (λ n. map_find n (map_erase (d.no_of net) d.map_net)) (ap d.no_of (sym at))
          ∙ map_find-erase_same (d.no_of net) 0 d.map_net d.max_no s.ordered)
    | inr other ↦
        rw other
          (map_find-erase_other (d.no_of net) (d.no_of k) d.map_net (apart k other) ∙ s.looks k)
  ];
  present = λ k.
      let before = receivers-map_erase (d.no_of net) k d.map_net at_net in
      elim (Bool-cases (net == k)) [
        | inl this ↦
            let at : net ≡ k = ground arith in
            ground (arith, this, before, s.present k, connected_before, ap c at)
        | inr other ↦ ground (arith, other, before, s.present k)
      ];
}
  where
    at_net : map_find (d.no_of net) d.map_net ≡ some net
    at_net = s.looks net ∙ ap (λ b. if b then some net else none) connected_before

    apart : (k : ℕ) → (net == k) ≡ false → (d.no_of net == d.no_of k) ≡ false
    apart k other = elim (Bool-cases (d.no_of net == d.no_of k)) [
      | inl same ↦ elim (s.distinct k net (ground arith)) [
        | inl this ↦ absurd (ground (arith, this, other))
        | inr zeroed ↦ absurd (
            ground (
              arith,
              at_net,
              find_first (d.no_of net) 0 d.map_net d.max_no s.ordered (omega (arith, zeroed)),
            ))
      ]
      | inr different ↦ different
    ]

run_events-Sound :
    (es : List NetEvent) {c : ℕ → Bool} {d : DummyServer}
    → Alternates es c
    → Sound c d
    → Sound (connected es c) (run_events es d)
unfolding run_events
run_events-Sound [] a s = s
run_events-Sound (on_accept k ∷ es) {c} {d} a s = run_events-Sound es a.1 (
    subst (λ (r : DummyServer × Bool). Sound (update c k true) r.0) (sym (add_net_lem k s))
      (added-Sound k a.0 s))
run_events-Sound (on_close k ∷ es) {c} {d} a s = run_events-Sound es a (elim (Bool-cases (c k)) [
  | inl on ↦
      subst (λ (r : DummyServer × Bool). Sound (update c k false) r.0)
        (sym (remove_net-present k d (s.looks k ∙ ap (λ b. if b then some k else none) on)))
        (removed-Sound k on s)
  | inr off ↦
      subst (λ (r : DummyServer × Bool). Sound (update c k false) r.0)
        (sym (remove_net-absent k d (s.looks k ∙ ap (λ b. if b then some k else none) off)))
        (absent-Sound k off s)
])

abbrev pub nobody : ℕ → Bool
nobody k = false

new_server-Sound : Sound nobody new_server
unfolding map_find receivers
new_server-Sound = record {
  ordered = omega arith;
  bounded = λ k. omega arith;
  distinct = λ j k e. inr refl;
  looks = λ k. refl;
  present = λ k. refl;
}

-- After any `OnAccept`s and `OnClose`s of the sessions of the server, where no session is accepted
-- while it is connected, `Broadcast` sends to every connected session exactly once and to no other,
-- and `GetPlayerNet` of a session's number finds it just when it is connected.
pub broadcast-connected :
    (es : List NetEvent) (k : ℕ)
    → Alternates es nobody
    → let d = run_events es new_server in
      (occurs k (broadcast d) ≡ count_flag (connected es nobody k))
      × (get_player_net (d.no_of k) d ≡ (if connected es nobody k then some k else none))
unfolding broadcast get_player_net
broadcast-connected es k a =
    let s = run_events-Sound es a new_server-Sound in (s.present k, s.looks k)
