-- ===== src/ObjectPool/Keep.antt =====
-- One call of a ReusableObjectPool: `Allocate` with nothing kept, and `Free`.
use rio_network.Base.{
  ℕ, ◌+◌, ◌*◌, ◌≤◌, ◌<◌, ◌≡◌, refl, ap, ap₂, subst, ◌∙◌, ◌⊎◌, inl, inr, false, Option, none, some,
  List, [], ◌∷◌, ◌++◌, arith, ◌==◌, if◌then◌else◌, Bool-cases, occurs, occurs-append,
}
use rio_network.Allocator.{chunk_bytes, FixedAllocator, node_bytes, Outcome, alloc}
use rio_network.Allocator.Layout.{IsFresh}
use rio_network.Allocator.Whole.{area, asked-IsFresh, Whole}
use rio_network.Allocator.Alloc.{Handed, alloc-Cases, reordered-Whole}
use rio_network.Allocator.Run.{chunks_now}
use rio_network.LinkedList.{
  Nodes, new_node, set_data, set_prev, set_next, tie_off, tie_in, push_back, add_before,
}
use rio_network.LinkedList.Cycle.{absent}
use rio_network.LinkedList.Refine.{IsList, push_back_refines}
use rio_network.LinkedList.Loops.{empty_lem}
use rio_network.ObjectPool.{
  construct_at, keep_at, pool_allocate, ReusableObjectPool, allocate, Freed, kept, refused, free,
}
use rio_network.ObjectPool.Queue.{contents, contents-congr, contents-append, same-IsList, Holds}

-- With nothing kept, only the pool of objects is asked.
pub allocate_asks :
    (granted : Option ℕ) (r : ReusableObjectPool) {chunks : List ℕ}
    → Holds r [] chunks
    → Holds (allocate granted r).0 [] chunks
unfolding allocate
allocate_asks granted r {chunks} v = go v.members v.ring v.stored v.blocks
  where
    go :
        (l : List ℕ)
        → IsList r.nodes r.head l
        → contents r.nodes l ≡ []
        → Whole r.node_pool l v.spare chunks
        → Holds (allocate granted r).0 [] chunks
    go [] i e w =
        rw (allocate, empty_lem r.nodes r.head [] i)
          (record {
            members = [];
            spare = v.spare;
            ring = i;
            stored = refl;
            blocks = w;
            off = v.off;
          })
    go (x ∷ l) i e w = absurd (cc)

-- The nodes when a new one, at `node`, has taken this object.
abbrev joined : ℕ → ℕ → ReusableObjectPool → Nodes
joined node obj r = push_back r.head node (set_data node obj (new_node node r.nodes))

joined-IsList :
    (node obj : ℕ) (r : ReusableObjectPool) (l : List ℕ)
    → IsList r.nodes r.head l
    → occurs node (r.head ∷ l) ≡ 0
    → IsList (joined node obj r) r.head (l ++ (node ∷ []))
unfolding new_node set_data set_prev set_next tie_off
joined-IsList node obj r l v new =
    push_back_refines r.head node l
      (same-IsList r.head l v (λ x h. (
        ground (arith, absent x node (r.head ∷ l) h new),
        ground (arith, absent x node (r.head ∷ l) h new),
      )))
      new

joined-contents :
    (node obj : ℕ) (r : ReusableObjectPool) (l : List ℕ)
    → occurs node l ≡ 0
    → contents (joined node obj r) (l ++ (node ∷ [])) ≡ contents r.nodes l ++ (obj ∷ [])
unfolding push_back add_before tie_in new_node set_data set_prev set_next tie_off
joined-contents node obj r l new =
    contents-append (joined node obj r) l (node ∷ [])
    ∙ ap (λ c. c ++ ((joined node obj r).data_of node ∷ []))
        (contents-congr r.nodes (joined node obj r) l
          (λ x h. ground (arith, absent x node l h new)))
    ∙ ap (λ d. contents r.nodes l ++ (d ∷ [])) (ground arith)

-- What `new` promises the pool of nodes: fresh memory, away from the head of the list.
abbrev pub IsGranted : Option ℕ → ReusableObjectPool → List ℕ → Type 0
IsGranted granted r chunks =
    (c : ℕ)
    → granted ≡ some c
    → IsFresh (chunk_bytes r.node_pool) c chunks × ((r.head < c) ⊎ (c + area r.node_pool ≤ r.head))

-- `Free` keeps the object, behind the others, or ends in `bad_alloc`; it never writes through a
-- null pointer.
pub record Stored (obj : ℕ) (granted : Option ℕ) (r : ReusableObjectPool) (queue chunks : List ℕ)
    (f : Freed) : Type 0 where
  pub pool : ReusableObjectPool
  pub chunks' : List ℕ
  pub ran : f ≡ kept pool
  pub grows :
      (if pool.node_pool.chunk == r.node_pool.chunk then chunks else pool.node_pool.chunk ∷ chunks)
      ≡ chunks'
  pub holds : Holds pool (queue ++ (obj ∷ [])) chunks'

still_off :
    (granted : Option ℕ) (r : ReusableObjectPool) {queue chunks : List ℕ}
    → (v : Holds r queue chunks) → IsGranted granted r chunks
    → (a : FixedAllocator × Outcome) → (b : Handed r.node_pool granted v.members chunks a) → (c : ℕ)
    → 0 < occurs c b.chunks_now
    → (r.head < c) ⊎ (c + area r.node_pool ≤ r.head)
still_off granted r v fresh a b c h = elim b.same_or_grown [
  | inl (chunk, now) ↦ v.off c (omega (arith, h, ap (occurs c) now))
  | inr (d, e, no_node, chunk, now) ↦ elim (Bool-cases (d == c)) [
    | inl this ↦
        let at : d ≡ c = ground arith in
        subst (λ x. (r.head < x) ⊎ (x + area r.node_pool ≤ r.head)) at (fresh d e).1
    | inr other ↦ v.off c (ground (arith, h, other, ap (occurs c) now))
  ]
]

block-Stored :
    (obj : ℕ) (granted : Option ℕ) (r : ReusableObjectPool) {queue chunks : List ℕ}
    → (v : Holds r queue chunks) → IsGranted granted r chunks
    → (a : FixedAllocator × Outcome) → Handed r.node_pool granted v.members chunks a
    → Stored obj granted r queue chunks (keep_at obj r (construct_at new_node r.nodes a))
unfolding keep_at construct_at
block-Stored obj granted r {queue} {chunks} v fresh a b =
    let real : (b.block == 0) ≡ false = ground (arith, b.positive) in
    let same : area a.0 ≡ area r.node_pool = ap₂ (λ n m. node_bytes + n * m) b.sizes.1 b.sizes.0 in
    let off : (c : ℕ) → 0 < occurs c b.chunks_now → (r.head < c) ⊎ (c + area a.0 ≤ r.head) =
      λ c h. ground (arith, same, still_off granted r v fresh a b c h) in
    let (c, of, low, high) = b.whole.layout.inside b.block (ground arith) in
    let new : occurs b.block (r.head ∷ v.members) ≡ 0 =
      ground (arith, b.unused, b.positive, low, high, off c of, b.whole.sized.holds_node) in
    record {
      pool = record r { node_pool = a.0; nodes = joined b.block obj r };
      chunks' = b.chunks_now;
      ran =
          ap (λ o. keep_at obj r (construct_at new_node r.nodes (a.0, o))) b.gave
          ∙ rw (construct_at, real, keep_at, real) refl;
      grows =
          chunks_now (record { allocator = r.node_pool; live = v.members; chunks = chunks }) a
            v.blocks (λ c e. asked-IsFresh r.node_pool c chunks v.blocks.sized (fresh c e).0) b;
      holds = record {
        members = v.members ++ (b.block ∷ []);
        spare = b.spare;
        ring = joined-IsList b.block obj r v.members v.ring new;
        stored =
            joined-contents b.block obj r v.members b.unused ∙ ap (λ q. q ++ (obj ∷ [])) v.stored;
        blocks =
            reordered-Whole (v.members ++ (b.block ∷ [])) b.whole
              (λ x. omega (arith, occurs-append x v.members (b.block ∷ [])));
        off = off;
      };
    }

pub free_stores :
    (obj : ℕ) (granted : Option ℕ) (r : ReusableObjectPool) {queue chunks : List ℕ}
    → Holds r queue chunks
    → IsGranted granted r chunks
    → ((granted ≡ none) × (free obj granted r ≡ refused r))
      ⊎ Stored obj granted r queue chunks (free obj granted r)
unfolding free pool_allocate keep_at construct_at
free_stores obj granted r {queue} {chunks} v fresh =
    elim (alloc-Cases 0 granted v.spare v.blocks
      (λ c e. asked-IsFresh r.node_pool c chunks v.blocks.sized (fresh c e).0)) [
        | inl (large, e) ↦ absurd (omega (arith, large))
        | inr (inl (small, no_node, none_given, e)) ↦
            inl (none_given, ap (λ a. keep_at obj r (construct_at new_node r.nodes a)) e)
        | inr (inr (small, b)) ↦
            inr (block-Stored obj granted r v fresh (alloc 0 granted r.node_pool) b)
      ]
