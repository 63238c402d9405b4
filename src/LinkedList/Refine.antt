-- ===== src/LinkedList/Refine.antt =====
-- cLinkedList against a list of nodes.
use rio_network.Base.{
  ℕ, ◌≤◌, ◌<◌, ◌≡◌, refl, ap, inl, inr, List, [], ◌∷◌, ◌++◌, arith, ◌==◌, if◌then◌else◌, Bool-cases,
  occurs, occurs-append, without,
}
use rio_network.LinkedList.{Nodes, push_front, push_back}
use rio_network.LinkedList.Splice.{add_after-Inserted, add_before-Inserted}
use rio_network.LinkedList.Cycle.{Linked, ends, absent, Inserted-Linked, Inserted-end}

-- The nodes from the head around to the head are those of the list, each once.
pub record IsList (s : Nodes) (head : ℕ) (l : List ℕ) : Type 0 where
  pub linked : Linked s head l head
  pub once : (x : ℕ) → occurs x (head ∷ l) ≤ 1

abbrev pub put_after : ℕ → ℕ → List ℕ → List ℕ
put_after x link [] = []
put_after x link (a ∷ l) =
    let rest = put_after x link l in if a == x then a ∷ link ∷ l else a ∷ rest

abbrev pub put_before : ℕ → ℕ → List ℕ → List ℕ
put_before x link [] = []
put_before x link (a ∷ l) =
    let rest = put_before x link l in if a == x then link ∷ a ∷ l else a ∷ rest

-- A list at one of its members.
pub record Cut (x : ℕ) (l : List ℕ) : Type 0 where
  pub front : List ℕ
  pub back : List ℕ
  pub whole : l ≡ front ++ (x ∷ back)
  pub after : (link : ℕ) → put_after x link l ≡ front ++ (x ∷ link ∷ back)
  pub before : (link : ℕ) → put_before x link l ≡ front ++ (link ∷ x ∷ back)
  pub gone : without x l ≡ front ++ back

pub cut : (x : ℕ) (l : List ℕ) → 0 < occurs x l → Cut x l
cut x [] h = absurd (omega arith)
cut x (a ∷ l) h = elim (Bool-cases (a == x)) [
  | inl this ↦
      let at : a ≡ x = ground arith in
      record {
        front = [];
        back = l;
        whole = ap (λ y. y ∷ l) at;
        after = λ link. rw this (ap (λ y. y ∷ link ∷ l) at);
        before = λ link. rw this (ap (λ y. link ∷ y ∷ l) at);
        gone = rw this refl;
      }
  | inr other ↦
      let c = cut x l (ground arith) in
      record {
        front = a ∷ c.front;
        back = c.back;
        whole = ap (◌∷◌ a) c.whole;
        after = λ link. rw other (ap (◌∷◌ a) (c.after link));
        before = λ link. rw other (ap (◌∷◌ a) (c.before link));
        gone = rw other (ap (◌∷◌ a) c.gone);
      }
]

pub push_front_refines :
    {s : Nodes} (head link : ℕ) (l : List ℕ)
    → IsList s head l
    → occurs link (head ∷ l) ≡ 0
    → IsList (push_front head link s) head (link ∷ l)
unfolding push_front
push_front_refines {s} head link l v new =
    let (_, first) = ends s head l head v.linked in
    record {
      linked =
          Inserted-Linked head link l head
            (add_after-Inserted head link s (ground (arith, new))
              (ground (arith, absent (s.next head) link (head ∷ l) first new)))
            (ground (arith, v.once head)) (ground (arith, new)) v.once v.linked;
      once = λ x. ground (arith, v.once x, new);
    }

pub push_back_refines :
    {s : Nodes} (head link : ℕ) (l : List ℕ)
    → IsList s head l
    → occurs link (head ∷ l) ≡ 0
    → IsList (push_back head link s) head (l ++ (link ∷ []))
unfolding push_back
push_back_refines {s} head link l v new =
    let (last, _) = ends s head l head v.linked in
    record {
      linked =
          Inserted-end head link l head
            (add_before-Inserted head link s (ground (arith, new))
              (ground (arith, absent (s.prev head) link (head ∷ l) last new)))
            v.once (ground (arith, v.once head)) (ground (arith, new)) v.linked;
      once = λ x. ground (arith, v.once x, new, occurs-append x l (link ∷ []));
    }
