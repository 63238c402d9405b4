-- ===== src/ObjectPool.antt =====
-- NetLib/NetLib/ObjectPool.h: objects in the blocks of a FastFixedAllocator, and a pool that keeps
-- objects which are given back and hands them out again.
pub mod Queue
pub mod Keep
pub mod Reuse
pub mod Destroy
mod Tests
use rio_network.Base.{
  ℕ, zero, suc, true, false, Option, none, some, List, [], ◌∷◌, ◌==◌, if◌then◌else◌,
}
use rio_network.Allocator.{FixedAllocator, new_fixed, Outcome, threw, returned, alloc, free_all}
use rio_network.Allocator as Allocator
use rio_network.LinkedList.{Nodes, new_node, delete_node, set_data, empty, erase, push_back}

-- ObjectPool: `construct` and `destroy` are what T's constructor and destructor do to the objects.
unfoldable pub construct_at {ℓ} :
    {A : Type ℓ} → (ℕ → A → A) → A → FixedAllocator × Outcome → FixedAllocator × A × Outcome
construct_at construct objects (pool, threw) = (pool, objects, threw)
construct_at construct objects (pool, returned p) =
    if p == 0 then (pool, objects, returned 0) else (pool, construct p objects, returned p)

unfoldable pub pool_allocate {ℓ} :
    {A : Type ℓ} → (ℕ → A → A) → Option ℕ → FixedAllocator → A → FixedAllocator × A × Outcome
pool_allocate construct granted pool objects = construct_at construct objects (alloc 0 granted pool)

unfoldable pub pool_free {ℓ} :
    {A : Type ℓ} → (ℕ → A → A) → ℕ → FixedAllocator → A → FixedAllocator × A
pool_free destroy p pool objects = (Allocator.free p pool, destroy p objects)

-- What happens to the objects of a ReusableObjectPool.
pub data PoolEffect : Type 0 where
  constructed destroyed : ℕ → PoolEffect

-- `nodes` has the nodes of `free_list`, whose head node is at `head`; `out` has the last effect
-- first. A node lies in a block in use, which the allocator neither reads nor writes.
pub record ReusableObjectPool : Type 0 where
  pub objpool : FixedAllocator
  pub node_pool : FixedAllocator
  pub nodes : Nodes
  pub head : ℕ
  pub out : List PoolEffect

-- `sizeof(cLinkedNode<T>)`: three pointers.
abbrev pub sizeof_node : ℕ
sizeof_node = 24

-- The constructor, of objects of `size_of` bytes.
unfoldable pub new_pool : (ℕ → ℕ) → Nodes → ℕ → ℕ → ℕ → ReusableObjectPool
new_pool memory nodes head size_of chunk_count = record {
  objpool = new_fixed memory size_of chunk_count;
  node_pool = new_fixed memory sizeof_node chunk_count;
  nodes = new_node head nodes;
  head = head;
  out = [];
}

unfoldable pub allocate : Option ℕ → ReusableObjectPool → ReusableObjectPool × Outcome
allocate granted r =
    if empty r.head r.nodes
    then (let (pool, out, made) =
          pool_allocate (λ p l. constructed p ∷ l) granted r.objpool r.out in
        (record r { objpool = pool; out = out }, made))
    else (let node = r.nodes.next r.head in
        let obj = r.nodes.data_of node in
        let (pool, nodes) =
          pool_free delete_node node r.node_pool (erase node (set_data node 0 r.nodes)) in
        (record r { node_pool = pool; nodes = nodes }, returned obj))

-- `Free` keeps the object, ends in the exception of the pool of nodes, or writes through the null
-- pointer that this pool answered.
pub data Freed : Type 0 where
  kept refused : ReusableObjectPool → Freed
  crashed : Freed

unfoldable pub keep_at : ℕ → ReusableObjectPool → FixedAllocator × Nodes × Outcome → Freed
keep_at obj r (pool, nodes, threw) = refused (record r { node_pool = pool; nodes = nodes })
keep_at obj r (pool, nodes, returned node) =
    if node == 0
    then crashed
    else kept
        (record r { node_pool = pool; nodes = push_back r.head node (set_data node obj nodes) })

unfoldable pub free : ℕ → Option ℕ → ReusableObjectPool → Freed
free obj granted r = keep_at obj r (pool_allocate new_node granted r.node_pool r.nodes)

-- The loop of the destructor; `none` when it has not ended.
unfoldable pub destroy_kept : ℕ → ReusableObjectPool → Option ReusableObjectPool
destroy_kept zero r = none
destroy_kept (suc fuel) r =
    let node = r.nodes.next r.head in
    let (objects, out) =
      pool_free (λ p l. destroyed p ∷ l) (r.nodes.data_of node) r.objpool r.out in
    let (pool, nodes) = pool_free delete_node node r.node_pool (erase node r.nodes) in
    let rest =
      destroy_kept fuel
        (record r { objpool = objects; out = out; node_pool = pool; nodes = nodes }) in
    if empty r.head r.nodes then some r else rest
