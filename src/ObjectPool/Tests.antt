-- ===== src/ObjectPool/Tests.antt =====
-- A pool that got two objects back, and the theorems at it.
use rio_network.Base.{
  ℕ, ◌≡◌, ◌⊎◌, inl, ◌+◌, ◌≤◌, ◌<◌, refl, subst, none, some, List, [], ◌∷◌, arith,
}
use rio_network.Allocator.{
  chunk_bytes, new_fixed, alloc_chunk, link_nodes, link_chunk, fill_free_node, pop_node, pop_filled,
  alloc, returned,
}
use rio_network.Allocator.Layout.{IsFresh}
use rio_network.Allocator.Whole.{IsSized}
use rio_network.LinkedList.{Nodes}
use rio_network.ObjectPool.{
  destroy_kept, ReusableObjectPool, new_pool, construct_at, pool_allocate, allocate, Freed, kept,
  refused, crashed, keep_at, free,
}
use rio_network.ObjectPool.Keep.{IsGranted}
use rio_network.LinkedList.Refine.{IsList}
use rio_network.ObjectPool.Destroy.{all_destroyed, destroy_kept-ends}
use rio_network.ObjectPool.Reuse.{PoolReach, begin, gave, allocate_oldest}

abbrev blank : Nodes
blank = record { prev = λ a. 0; next = λ a. 0; data_of = λ a. 0 }

abbrev fresh_pool : ReusableObjectPool
fresh_pool = new_pool (λ a. 0) blank 1 40 2

abbrev pool_of : Freed → ReusableObjectPool
pool_of (kept r) = r
pool_of (refused r) = r
pool_of crashed = fresh_pool

abbrev first : ReusableObjectPool
first = pool_of (free 700 (some 1000) fresh_pool)

abbrev second : ReusableObjectPool
second = pool_of (free 800 none first)

-- A chunk for two nodes.
chunk-IsGranted : IsGranted (some 1000) fresh_pool []
unfolding new_pool new_fixed chunk_bytes
chunk-IsGranted c e =
    let at : 1000 ≡ c = cc in
    subst (λ x. IsFresh 56 x [] × ((1 < x) ⊎ (x + 56 ≤ 1))) at
      (
        record {
          positive = omega arith;
          ends = omega arith;
          off = λ d h. absurd (omega (arith, h));
        },
        inl (omega arith),
      )

sized : IsSized (new_fixed (λ a. 0) 24 2)
unfolding new_fixed
sized = record {
  holds_node = omega arith;
  some_block = omega arith;
  counts = omega arith;
  fits = omega arith;
}

first-lem : free 700 (some 1000) fresh_pool ≡ kept first
unfolding new_pool new_fixed alloc_chunk link_nodes link_chunk fill_free_node pop_node pop_filled
    alloc construct_at pool_allocate keep_at free
first-lem = refl

second-lem : free 800 none first ≡ kept second
unfolding new_pool new_fixed alloc_chunk link_nodes link_chunk fill_free_node pop_node pop_filled
    alloc construct_at pool_allocate keep_at free
second-lem = refl

none-IsGranted : (r : ReusableObjectPool) (chunks : List ℕ) → IsGranted none r chunks
none-IsGranted r chunks c e = absurd (cc)

second-Reach : PoolReach second (700 ∷ 800 ∷ []) (1000 ∷ [])
unfolding new_pool new_fixed alloc_chunk link_nodes link_chunk fill_free_node pop_node pop_filled
    alloc construct_at pool_allocate keep_at free
second-Reach =
    gave 800 none
      (gave 700 (some 1000) (begin (λ a. 0) blank 1 40 2 sized) chunk-IsGranted first-lem)
      (none-IsGranted first (1000 ∷ [])) second-lem

allocate_oldest_example :
    ((allocate none second).1 ≡ returned 700) × ((allocate none second).0.out ≡ second.out)
allocate_oldest_example = allocate_oldest none second-Reach

destroy_kept-ends_example :
    (r' : ReusableObjectPool) × (destroy_kept 3 second ≡ some r')
    × (r'.out ≡ all_destroyed (700 ∷ 800 ∷ []) second.out)
    × IsList r'.nodes r'.head []
destroy_kept-ends_example = destroy_kept-ends 3 second-Reach (omega arith)
