-- ===== src/ObjectPool/Queue.antt =====
-- ReusableObjectPool as a queue of objects.
use rio_network.Base.{
  ℕ, ◌+◌, ◌≤◌, ◌<◌, ◌≡◌, refl, sym, ap, subst, ◌∙◌, ◌⊎◌, inl, inr, false, Option, List, [], ◌∷◌,
  ◌++◌, arith, ◌==◌, Bool-cases, occurs,
}
use rio_network.Allocator.{FixedAllocator, Outcome, threw, returned, get_buffer, alloc}
use rio_network.Allocator as Allocator
use rio_network.Allocator.Whole.{area, Whole}
use rio_network.Allocator.Alloc.{free-Whole}
use rio_network.LinkedList.{
  Nodes, delete_node, set_data, set_prev, set_next, tie_off, erase, remove,
}
use rio_network.LinkedList.Cycle.{Linked-congr, absent}
use rio_network.LinkedList.Refine.{IsList}
use rio_network.LinkedList.Inside.{removed_back}
use rio_network.LinkedList.Loops.{empty_lem}
use rio_network.ObjectPool.{pool_free, ReusableObjectPool, allocate}

-- What the nodes of a list point to.
abbrev pub contents : Nodes → List ℕ → List ℕ
contents s [] = []
contents s (x ∷ l) = s.data_of x ∷ contents s l

pub contents-congr :
    (s s' : Nodes) (l : List ℕ)
    → ((x : ℕ) → 0 < occurs x l → s'.data_of x ≡ s.data_of x)
    → contents s' l ≡ contents s l
contents-congr s s' [] same = refl
contents-congr s s' (x ∷ l) same =
    ap (λ d. d ∷ contents s' l) (same x (ground arith))
    ∙ ap (◌∷◌ (s.data_of x)) (contents-congr s s' l (λ y h. same y (omega arith)))

pub contents-append :
    (s : Nodes) (l m : List ℕ) → contents s (l ++ m) ≡ contents s l ++ contents s m
contents-append s [] m = refl
contents-append s (x ∷ l) m = ap (◌∷◌ (s.data_of x)) (contents-append s l m)

-- Pointers that other nodes keep.
pub same-IsList :
    {s s' : Nodes} (head : ℕ) (l : List ℕ)
    → IsList s head l
    → ((x : ℕ) → 0 < occurs x (head ∷ l) → (s'.next x ≡ s.next x) × (s'.prev x ≡ s.prev x))
    → IsList s' head l
same-IsList {s} {s'} head l v same = record {
  linked = Linked-congr s s' head l head (λ x h. (same x h).0) (λ x h. (same x h).1) v.linked;
  once = v.once;
}

-- The kept objects are those of the queue, each at a node of its own, in a block of the pool of
-- nodes; no chunk of that pool covers the head of the list.
pub record Holds (r : ReusableObjectPool) (queue chunks : List ℕ) : Type 0 where
  pub members : List ℕ
  pub spare : List ℕ
  pub ring : IsList r.nodes r.head members
  pub stored : contents r.nodes members ≡ queue
  pub blocks : Whole r.node_pool members spare chunks
  pub off : (c : ℕ) → 0 < occurs c chunks → (r.head < c) ⊎ (c + area r.node_pool ≤ r.head)

-- The pool when the node `x` gave its object away.
abbrev taken : ℕ → ReusableObjectPool → ReusableObjectPool
taken x r = record r {
  node_pool = Allocator.free x r.node_pool;
  nodes = delete_node x (erase x (set_data x 0 r.nodes));
}

allocate_first :
    (granted : Option ℕ) (r : ReusableObjectPool) (x : ℕ) (l : List ℕ)
    → IsList r.nodes r.head (x ∷ l)
    → allocate granted r ≡ (taken x r, returned (r.nodes.data_of x))
unfolding allocate pool_free
allocate_first granted r x l v =
    rw (allocate, empty_lem r.nodes r.head (x ∷ l) v)
      (ap (λ y. (taken y r, returned (r.nodes.data_of y))) v.linked.0)

taken-IsList :
    {s : Nodes} (head x : ℕ) (l : List ℕ)
    → IsList s head (x ∷ l)
    → IsList (delete_node x (erase x (set_data x 0 s))) head l
unfolding delete_node erase set_data set_prev set_next
taken-IsList {s} head x l v =
    let cleared : IsList (set_data x 0 s) head (x ∷ l) =
      same-IsList head (x ∷ l) v (λ y h. (refl, refl)) in
    let gone : IsList (remove x (set_data x 0 s)) head l = record {
      linked = removed_back head [] x l cleared;
      once = λ z. omega (arith, v.once z);
    } in
    let off : (y : ℕ) → 0 < occurs y (head ∷ l) → (x == y) ≡ false =
      λ y h. ground (arith, absent y x (head ∷ l) h (ground (arith, v.once x))) in
    same-IsList head l gone (λ y h. (ground (arith, off y h), ground (arith, off y h)))

free_area : (p : ℕ) (s : FixedAllocator) → area (Allocator.free p s) ≡ area s
unfolding Allocator.free
free_area p s = elim (Bool-cases (p == 0)) [ inl null ↦ rw null refl | inr real ↦ rw real refl ]

taken-Holds :
    (r : ReusableObjectPool) (x : ℕ) (l spare : List ℕ) {queue chunks : List ℕ}
    → IsList r.nodes r.head (x ∷ l)
    → contents r.nodes l ≡ queue
    → Whole r.node_pool (x ∷ l) spare chunks
    → ((c : ℕ) → 0 < occurs c chunks → (r.head < c) ⊎ (c + area r.node_pool ≤ r.head))
    → Holds (taken x r) queue chunks
unfolding delete_node erase remove tie_off set_data set_prev set_next
taken-Holds r x l spare {queue} v e w off = record {
  members = l;
  spare = x ∷ spare;
  ring = taken-IsList r.head x l v;
  stored =
      contents-congr r.nodes (delete_node x (erase x (set_data x 0 r.nodes))) l
        (λ y h. ground (arith, absent y x l h (ground (arith, v.once x))))
      ∙ e;
  blocks = free-Whole x l w (λ a. refl);
  off = λ c h. ground (arith, off c h, free_area x r.node_pool);
}

-- The first kept object is handed out.
pub allocate_reuses :
    (granted : Option ℕ) (r : ReusableObjectPool) {obj : ℕ} {queue chunks : List ℕ}
    → Holds r (obj ∷ queue) chunks
    → ((allocate granted r).1 ≡ returned obj)
      × ((allocate granted r).0.out ≡ r.out)
      × Holds (allocate granted r).0 queue chunks
allocate_reuses granted r {obj} {queue} {chunks} v = go v.members v.ring v.stored v.blocks
  where
    go :
        (l : List ℕ)
        → IsList r.nodes r.head l
        → contents r.nodes l ≡ obj ∷ queue
        → Whole r.node_pool l v.spare chunks
        → ((allocate granted r).1 ≡ returned obj)
          × ((allocate granted r).0.out ≡ r.out)
          × Holds (allocate granted r).0 queue chunks
    go [] i e w = absurd (cc)
    go (x ∷ l) i e w =
        let ran = allocate_first granted r x l i in
        (
          ap (λ a. a.1) ran ∙ ap returned (cc),
          ap (λ a. a.0.out) ran,
          subst (λ a. Holds a.0 queue chunks) (sym ran) (taken-Holds r x l v.spare i (cc) w v.off),
        )
