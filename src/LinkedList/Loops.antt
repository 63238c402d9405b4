-- ===== src/LinkedList/Loops.antt =====
-- The loops of cLinkedList: `size` and `clear`.
use rio_network.Base.{
  ℕ, zero, suc, ◌<◌, ◌≡◌, refl, ap, subst, ◌∙◌, inl, inr, Bool, true, false, ◌&&◌, List, [], ◌∷◌,
  arith, ◌==◌, if◌then◌else◌, Bool-cases, occurs, length, Option, some,
}
use rio_network.LinkedList.{
  Nodes, set_prev, set_next, tie_off, is_tie_off, remove, empty, size_from, size, in_list_from,
  is_in_list, clear,
}
use rio_network.LinkedList.Cycle.{Linked, absent}
use rio_network.LinkedList.Refine.{IsList}
use rio_network.LinkedList.Inside.{removed, removed_back, before_in, behind_in}

size_from_lem :
    (fuel : ℕ) (s : Nodes) (head a : ℕ) (l : List ℕ)
    → Linked s a l head
    → occurs head l ≡ 0
    → length l < fuel
    → size_from fuel head (s.next a) s ≡ some (length l)
unfolding size_from
size_from_lem zero s head a l k off h = absurd (omega arith)
size_from_lem (suc fuel) s head a [] (e, f) off h =
    let there : (s.next a == head) ≡ true = ground (arith, e) in rw there refl
size_from_lem (suc fuel) s head a (x ∷ l) (e, f, k) off h =
    let on : (s.next a == head) ≡ false = ground (arith, e, off) in
    let rest : size_from fuel head (s.next (s.next a)) s ≡ some (length l) =
      ap (λ y. size_from fuel head (s.next y) s) e
      ∙ size_from_lem fuel s head x l k (omega (arith, off)) (omega (arith, h)) in
    rw (on, rest) refl

pub size_lem :
    (fuel : ℕ) (s : Nodes) (head : ℕ) (l : List ℕ)
    → IsList s head l
    → length l < fuel
    → size fuel head s ≡ some (length l)
unfolding size
size_lem fuel s head l v h =
    size_from_lem fuel s head head l v.linked (ground (arith, v.once head)) h

-- Whether a node of the list points to what `link` points to.
abbrev pub shares_data : Nodes → ℕ → List ℕ → Bool
shares_data s link [] = false
shares_data s link (x ∷ l) = if s.data_of x == s.data_of link then true else shares_data s link l

some_if :
    (b c : Bool)
    → ◌≡◌ {A = Option Bool} (if b then some true else some c) (some (if b then true else c))
some_if true c = refl
some_if false c = refl

in_list_from_lem :
    (fuel : ℕ) (s : Nodes) (head link a : ℕ) (l : List ℕ)
    → Linked s a l head
    → occurs head l ≡ 0
    → length l < fuel
    → in_list_from fuel head (s.next a) link s ≡ some (shares_data s link l)
unfolding in_list_from
in_list_from_lem zero s head link a l k off h = absurd (omega arith)
in_list_from_lem (suc fuel) s head link a [] (e, f) off h =
    let there : (s.next a == head) ≡ true = ground (arith, e) in rw there refl
in_list_from_lem (suc fuel) s head link a (x ∷ l) (e, f, k) off h =
    let on : (s.next a == head) ≡ false = ground (arith, e, off) in
    let rest : in_list_from fuel head (s.next (s.next a)) link s ≡ some (shares_data s link l) =
      ap (λ y. in_list_from fuel head (s.next y) link s) e
      ∙ in_list_from_lem fuel s head link x l k (omega (arith, off)) (omega (arith, h)) in
    rw (on, rest)
      (ap (λ y. if s.data_of y == s.data_of link then some true else some (shares_data s link l)) e
        ∙ some_if (s.data_of x == s.data_of link) (shares_data s link l))

pub is_in_list_lem :
    (fuel : ℕ) (s : Nodes) (head link : ℕ) (l : List ℕ)
    → IsList s head l
    → length l < fuel
    → is_in_list fuel head link s ≡ some (shares_data s link l)
unfolding is_in_list
is_in_list_lem fuel s head link l v h =
    in_list_from_lem fuel s head link head l v.linked (ground (arith, v.once head)) h

abbrev pub is_nil : List ℕ → Bool
is_nil [] = true
is_nil (x ∷ l) = false

pub empty_lem : (s : Nodes) (head : ℕ) (l : List ℕ) → IsList s head l → empty head s ≡ is_nil l
unfolding empty is_tie_off
empty_lem s head [] v = ground (arith, v.linked)
empty_lem s head (x ∷ l) v = let (e, f, k) = v.linked in ground (arith, e, v.once head)

-- A node that is not on the list stays as it was.
erased_other :
    {s : Nodes} (head x : ℕ) (l : List ℕ) (z : ℕ)
    → IsList s head (x ∷ l)
    → occurs z (head ∷ x ∷ l) ≡ 0
    → is_tie_off z s ≡ true
    → is_tie_off z (remove x s) ≡ true
unfolding is_tie_off
erased_other {s} head x l z v off alone =
    let i = removed head [] x l v in
    let apart : (y : ℕ) → 0 < occurs y (head ∷ x ∷ l) → (z == y) ≡ false =
      λ y h. ground (arith, absent y z (head ∷ x ∷ l) h off) in
    let n =
      i.other_next z (apart (s.prev x) (ground (arith, before_in head [] x l v)))
        (ground (arith, off)) in
    let p =
      i.other_prev z (apart (s.next x) (ground (arith, behind_in head [] x l v)))
        (ground (arith, off)) in
    rw (n, p) alone

-- The head of an empty list is taken out.
remove_alone :
    {s : Nodes} (head : ℕ)
    → IsList s head []
    → IsList (remove head s) head []
      × ((z : ℕ)
          → occurs z (head ∷ []) ≡ 0
          → is_tie_off z s ≡ true
          → is_tie_off z (remove head s) ≡ true)
unfolding remove tie_off set_prev set_next is_tie_off
remove_alone {s} head v =
    let (e, f) = v.linked in
    (
      record { linked = (ground arith, ground arith); once = v.once },
      λ z off alone. ground (arith, e, f, off, alone),
    )

-- What `clear` leaves: nothing on the list, its nodes tied off, and the others as they were.
record Cleared (fuel head : ℕ) (s : Nodes) (l : List ℕ) : Type 0 where
  nodes : Nodes
  ran : clear fuel head s ≡ some nodes
  bare : IsList nodes head []
  freed : (z : ℕ) → 0 < occurs z l → is_tie_off z nodes ≡ true
  kept : (z : ℕ) → occurs z (head ∷ l) ≡ 0 → is_tie_off z s ≡ true → is_tie_off z nodes ≡ true

clear-Cleared :
    (fuel : ℕ) (s : Nodes) (head : ℕ) (l : List ℕ)
    → IsList s head l
    → length l < fuel
    → Cleared fuel head s l
unfolding clear
clear-Cleared zero s head l v h = absurd (omega arith)
clear-Cleared (suc fuel) s head [] v h =
    let (bare, kept) = remove_alone head v in
    record {
      nodes = remove head s;
      ran = rw (clear, empty_lem s head [] v) refl;
      bare = bare;
      freed = λ z m. absurd (omega arith);
      kept = kept;
    }
clear-Cleared (suc fuel) s head (x ∷ l) v h =
    let gone : IsList (remove x s) head l = record {
      linked = removed_back head [] x l v;
      once = λ z. omega (arith, v.once z);
    } in
    let c = clear-Cleared fuel (remove x s) head l gone (omega (arith, h)) in
    record {
      nodes = c.nodes;
      ran =
          rw (clear, empty_lem s head (x ∷ l) v)
            (ap (λ y. clear fuel head (remove y s)) v.linked.0 ∙ c.ran);
      bare = c.bare;
      freed = λ z m. elim (Bool-cases (x == z)) [
        | inl this ↦
            let at : x ≡ z = ground arith in
            subst (λ y. is_tie_off y c.nodes ≡ true) at
              (c.kept x (ground (arith, v.once x)) (removed head [] x l v).alone)
        | inr other ↦ c.freed z (ground (arith, m, other))
      ];
      kept = λ z off alone. c.kept z (omega (arith, off)) (erased_other head x l z v off alone);
    }

abbrev pub all_tied_off : List ℕ → Nodes → Bool
all_tied_off [] s = true
all_tied_off (x ∷ l) s = is_tie_off x s && all_tied_off l s

each_tied_off :
    (l : List ℕ) (s : Nodes)
    → ((z : ℕ) → 0 < occurs z l → is_tie_off z s ≡ true)
    → all_tied_off l s ≡ true
each_tied_off [] s h = refl
each_tied_off (x ∷ l) s h =
    rw (h x (ground arith)) (each_tied_off l s (λ z m. h z (omega (arith, m))))

-- `clear` ends, and leaves an empty list and each of its nodes tied off.
pub clear_lem :
    (fuel : ℕ) (s : Nodes) (head : ℕ) (l : List ℕ)
    → IsList s head l
    → length l < fuel
    → (s' : Nodes) × (clear fuel head s ≡ some s') × IsList s' head [] × (all_tied_off l s' ≡ true)
clear_lem fuel s head l v h =
    let c = clear-Cleared fuel s head l v h in
    (c.nodes, c.ran, c.bare, each_tied_off l c.nodes c.freed)
