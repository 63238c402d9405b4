-- ===== src/ObjectPool/Reuse.antt =====
-- Any calls of a ReusableObjectPool.
use rio_network.Base.{
  ℕ, ◌≡◌, refl, sym, subst, ◌⊎◌, inl, inr, Option, none, List, [], ◌∷◌, ◌++◌, arith, ◌==◌,
  if◌then◌else◌,
}
use rio_network.Allocator.{new_fixed, returned}
use rio_network.Allocator.Whole.{IsSized}
use rio_network.Allocator.Run.{construct, Reach-Kept}
use rio_network.LinkedList.{Nodes, new_node, set_data, set_prev, set_next, tie_off}
use rio_network.ObjectPool.{
  new_pool, sizeof_node, ReusableObjectPool, allocate, kept, refused, free,
}
use rio_network.ObjectPool.Queue.{Holds, allocate_reuses}
use rio_network.ObjectPool.Keep.{IsGranted, allocate_asks, free_stores}

abbrev grown : ReusableObjectPool → ReusableObjectPool → List ℕ → List ℕ
grown r r' chunks =
    if r'.node_pool.chunk == r.node_pool.chunk then chunks else r'.node_pool.chunk ∷ chunks

abbrev rest_of : List ℕ → List ℕ
rest_of [] = []
rest_of (obj ∷ queue) = queue

-- Any calls of a pool; beside it the kept objects, and the chunks of its nodes.
pub data PoolReach : ReusableObjectPool → List ℕ → List ℕ → Type 0 where
  begin :
      (memory : ℕ → ℕ) (nodes : Nodes) (head size_of chunk_count : ℕ)
      → IsSized (new_fixed memory sizeof_node chunk_count)
      → PoolReach (new_pool memory nodes head size_of chunk_count) [] []
  gave :
      {r r' : ReusableObjectPool} {queue chunks : List ℕ} (obj : ℕ) (granted : Option ℕ)
      → PoolReach r queue chunks
      → IsGranted granted r chunks
      → free obj granted r ≡ kept r'
      → PoolReach r' (queue ++ (obj ∷ [])) (grown r r' chunks)
  took :
      {r : ReusableObjectPool} {queue chunks : List ℕ} (granted : Option ℕ)
      → PoolReach r queue chunks
      → PoolReach (allocate granted r).0 (rest_of queue) chunks

begin-Holds :
    (memory : ℕ → ℕ) (nodes : Nodes) (head size_of chunk_count : ℕ)
    → IsSized (new_fixed memory sizeof_node chunk_count)
    → Holds (new_pool memory nodes head size_of chunk_count) [] []
unfolding new_pool new_node set_data set_prev set_next tie_off
begin-Holds memory nodes head size_of chunk_count z =
    let (spare, w) = Reach-Kept (construct memory sizeof_node chunk_count z) in
    record {
      members = [];
      spare = spare;
      ring = record { linked = (ground arith, ground arith); once = λ x. ground arith };
      stored = refl;
      blocks = w;
      off = λ c h. absurd (omega (arith, h));
    }

gave-Holds :
    {r r' : ReusableObjectPool} {queue chunks : List ℕ} (obj : ℕ) (granted : Option ℕ)
    → Holds r queue chunks
    → IsGranted granted r chunks
    → free obj granted r ≡ kept r'
    → Holds r' (queue ++ (obj ∷ [])) (grown r r' chunks)
gave-Holds {r} {r'} {queue} {chunks} obj granted v fresh e =
    elim (free_stores obj granted r v fresh) [
      | inl (none_given, other) ↦ absurd (cc)
      | inr s ↦
          let same : s.pool ≡ r' = cc (e, s.ran) in
          subst (λ x. Holds x (queue ++ (obj ∷ [])) (grown r x chunks)) same
            (subst (Holds s.pool (queue ++ (obj ∷ []))) (sym s.grows) s.holds)
    ]

took-Holds :
    {r : ReusableObjectPool} {chunks : List ℕ} (granted : Option ℕ) (queue : List ℕ)
    → Holds r queue chunks
    → Holds (allocate granted r).0 (rest_of queue) chunks
took-Holds {r} granted [] v = allocate_asks granted r v
took-Holds {r} granted (obj ∷ queue) v = (allocate_reuses granted r v).2

pub Reach-Holds :
    {r : ReusableObjectPool} {queue chunks : List ℕ}
    → PoolReach r queue chunks
    → Holds r queue chunks
Reach-Holds (begin memory nodes head size_of chunk_count z) =
    begin-Holds memory nodes head size_of chunk_count z
Reach-Holds (gave obj granted p fresh e) = gave-Holds obj granted (Reach-Holds p) fresh e
Reach-Holds (took {r} {queue} granted p) = took-Holds granted queue (Reach-Holds p)

-- In whatever order objects are asked for and given back, the one that is handed out is the one
-- kept longest, and it is not constructed again.
pub allocate_oldest :
    {r : ReusableObjectPool} {obj : ℕ} {queue chunks : List ℕ} (granted : Option ℕ)
    → PoolReach r (obj ∷ queue) chunks
    → ((allocate granted r).1 ≡ returned obj) × ((allocate granted r).0.out ≡ r.out)
allocate_oldest {r} granted p =
    let (gave_back, quiet, v) = allocate_reuses granted r (Reach-Holds p) in (gave_back, quiet)

-- `Free` either keeps the object or, when its pool of nodes needs a chunk and `new` gives none,
-- ends in `bad_alloc` with the pool as it was; it never writes through a null pointer.
pub free_outcome :
    {r : ReusableObjectPool} {queue chunks : List ℕ} (obj : ℕ) (granted : Option ℕ)
    → PoolReach r queue chunks
    → IsGranted granted r chunks
    → ((granted ≡ none) × (free obj granted r ≡ refused r))
      ⊎ ((r' : ReusableObjectPool) × (free obj granted r ≡ kept r'))
free_outcome {r} obj granted p fresh = elim (free_stores obj granted r (Reach-Holds p) fresh) [
  | inl failed ↦ inl failed
  | inr s ↦ inr (s.pool, s.ran)
]
