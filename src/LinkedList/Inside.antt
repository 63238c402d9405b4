-- ===== src/LinkedList/Inside.antt =====
-- The operations of cLinkedList at a node of the list.
use rio_network.Base.{
  ℕ, ◌+◌, ◌≤◌, ◌<◌, ◌≡◌, sym, ap, subst, true, List, [], ◌∷◌, ◌++◌, append_assoc, append-nil, arith,
  ◌==◌, if◌then◌else◌, occurs, occurs-append, without,
}
use rio_network.LinkedList.{
  Nodes, is_tie_off, add_after, add_before, remove, insert_after, insert_before, erase,
}
use rio_network.LinkedList.Splice.{Removed, add_after-Inserted, add_before-Inserted, remove-Removed}
use rio_network.LinkedList.Cycle.{
  Linked, Linked-append, Linked-split, ends, absent, Inserted-Linked, Inserted-end, Inserted-frame,
  Removed-frame, Removed-end,
}
use rio_network.LinkedList.Refine.{IsList, put_after, put_before, cut}

-- A list cut at its member `x`.
module _ {s : Nodes} (head : ℕ) (l1 : List ℕ) (x : ℕ) (l2 : List ℕ)
    (v : IsList s head (l1 ++ (x ∷ l2))) where
  once_cut : (y : ℕ) → occurs y (head ∷ l1) + occurs y (x ∷ l2) ≤ 1
  once_cut y = omega (arith, v.once y, occurs-append y l1 (x ∷ l2))

  halves : Linked s head l1 x × Linked s x l2 head
  halves = Linked-split s head l1 x l2 head v.linked

  -- What stands in front of `x` and what behind it.
  pub before_in : 0 < occurs (s.prev x) (head ∷ l1)
  before_in = (ends s head l1 x halves.0).0

  pub behind_in : 0 < occurs (s.next x) (head ∷ l2)
  behind_in = (ends s x l2 head halves.1).1

  before_off : occurs (s.prev x) (x ∷ l2) ≡ 0
  before_off = omega (arith, once_cut (s.prev x), before_in)

  behind_off : occurs (s.next x) (x ∷ l1) ≡ 0
  behind_off = omega (arith, once_cut (s.next x), behind_in)

  inserted_after :
      (link : ℕ)
      → occurs link (head ∷ l1) + occurs link (x ∷ l2) ≡ 0
      → Linked (add_after x link s) head (l1 ++ (x ∷ link ∷ l2)) head
  inserted_after link new =
      let i =
        add_after-Inserted x link s (ground (arith, new))
          (ground (arith, absent (s.next x) link (head ∷ l2) behind_in (omega (arith, new)))) in
      Linked-append (add_after x link s) head l1 x (link ∷ l2) head
        (Inserted-frame x (s.next x) link head l1 x i (ground (arith, once_cut x)) behind_off
          (omega (arith, new)) halves.0)
        (Inserted-Linked x link l2 head i (ground (arith, once_cut x)) (omega (arith, new))
          (λ y. omega (arith, once_cut y)) halves.1)

  inserted_before :
      (link : ℕ)
      → occurs link (head ∷ l1) + occurs link (x ∷ l2) ≡ 0
      → Linked (add_before x link s) head (l1 ++ (link ∷ x ∷ l2)) head
  inserted_before link new =
      let i =
        add_before-Inserted x link s (ground (arith, new))
          (ground (arith, absent (s.prev x) link (head ∷ l1) before_in (omega (arith, new)))) in
      subst (λ l. Linked (add_before x link s) head l head) (append_assoc l1 (link ∷ []) (x ∷ l2))
        (Linked-append (add_before x link s) head (l1 ++ (link ∷ [])) x l2 head
          (Inserted-end head link l1 x i (λ y. omega (arith, once_cut y))
            (ground (arith, once_cut x)) (omega (arith, new)) halves.0)
          (Inserted-frame (s.prev x) x link x l2 head i before_off (ground (arith, once_cut x))
            (omega (arith, new)) halves.1))

  pub removed : Removed (s.prev x) (s.next x) x s (remove x s)
  removed = remove-Removed x s (ground (arith, before_off)) (ground (arith, behind_off))

  removed_front : Linked (remove x s) head l1 (s.next x)
  removed_front =
      Removed-end head l1 x (s.next x) removed (λ y. omega (arith, once_cut y))
        (omega (arith, behind_off)) (ground (arith, once_cut x)) halves.0

-- The way on from the next node.
pub removed_back :
    {s : Nodes} (head : ℕ) (l1 : List ℕ) (x : ℕ) (l2 : List ℕ)
    → IsList s head (l1 ++ (x ∷ l2))
    → Linked (remove x s) head (l1 ++ l2) head
removed_back {s} head l1 x [] v =
    subst (λ l. Linked (remove x s) head l head) (sym (append-nil l1))
      (subst (Linked (remove x s) head l1) (halves head l1 x [] v).1.0
        (removed_front head l1 x [] v))
removed_back {s} head l1 x (y ∷ l2) v =
    let (e, f, k) = (halves head l1 x (y ∷ l2) v).1 in
    Linked-append (remove x s) head l1 y l2 head
      (subst (Linked (remove x s) head l1) e (removed_front head l1 x (y ∷ l2) v))
      (Removed-frame (s.prev x) (s.next x) x y l2 head (removed head l1 x (y ∷ l2) v)
        (omega (arith, before_off head l1 x (y ∷ l2) v))
        (subst (λ z. occurs z (head ∷ l2) ≡ 0) (sym e)
          (ground (arith, once_cut head l1 x (y ∷ l2) v y)))
        (ground (arith, once_cut head l1 x (y ∷ l2) v x)) k)

module _ {s : Nodes} (head x : ℕ) (l : List ℕ) (v : IsList s head l) (member : 0 < occurs x l) where
  at_cut : IsList s head ((cut x l member).front ++ (x ∷ (cut x l member).back))
  at_cut = subst (IsList s head) (cut x l member).whole v

  longer_once :
      (y link : ℕ) (l' : List ℕ)
      → occurs link (head ∷ l) ≡ 0
      → occurs y l' ≡ (if link == y then 1 else 0) + occurs y l
      → occurs y (head ∷ l') ≤ 1
  longer_once y link l' new e = ground (arith, new, e, v.once y)

  pub insert_after_refines :
      (link : ℕ)
      → occurs link (head ∷ l) ≡ 0
      → IsList (insert_after x link s) head (put_after x link l)
  unfolding insert_after
  insert_after_refines link new =
      let c = cut x l member in
      let parts = occurs-append link c.front (x ∷ c.back) in
      subst (IsList (add_after x link s) head) (sym (c.after link)) (record {
        linked =
            inserted_after head c.front x c.back at_cut link
              (omega (arith, new, ap (occurs link) c.whole, parts));
        once = λ y. longer_once y link (c.front ++ (x ∷ link ∷ c.back)) new (
            omega (
              arith,
              ap (occurs y) c.whole,
              occurs-append y c.front (x ∷ c.back),
              occurs-append y c.front (x ∷ link ∷ c.back),
            ));
      })

  pub insert_before_refines :
      (link : ℕ)
      → occurs link (head ∷ l) ≡ 0
      → IsList (insert_before x link s) head (put_before x link l)
  unfolding insert_before
  insert_before_refines link new =
      let c = cut x l member in
      let parts = occurs-append link c.front (x ∷ c.back) in
      subst (IsList (add_before x link s) head) (sym (c.before link)) (record {
        linked =
            inserted_before head c.front x c.back at_cut link
              (omega (arith, new, ap (occurs link) c.whole, parts));
        once = λ y. longer_once y link (c.front ++ (link ∷ x ∷ c.back)) new (
            omega (
              arith,
              ap (occurs y) c.whole,
              occurs-append y c.front (x ∷ c.back),
              occurs-append y c.front (link ∷ x ∷ c.back),
            ));
      })

  pub erase_refines : IsList (erase x s) head (without x l) × (is_tie_off x (erase x s) ≡ true)
  unfolding erase
  erase_refines =
      let c = cut x l member in
      (
        subst (IsList (remove x s) head) (sym c.gone) (record {
          linked = removed_back head c.front x c.back at_cut;
          once = λ y. omega (
            arith,
            v.once y,
            ap (occurs y) c.whole,
            occurs-append y c.front (x ∷ c.back),
            occurs-append y c.front c.back,
          );
        }),
        (removed head c.front x c.back at_cut).alone,
      )
