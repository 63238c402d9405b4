-- ===== src/ObjectPool/Destroy.antt =====
-- The destructor of ReusableObjectPool.
use rio_network.Base.{
  ℕ, zero, suc, ◌<◌, ◌≡◌, refl, ap, ◌∙◌, false, some, List, [], ◌∷◌, arith, ◌==◌, occurs, length,
}
use rio_network.Allocator as Allocator
use rio_network.LinkedList.{
  Nodes, delete_node, set_data, set_prev, set_next, tie_off, erase, remove,
}
use rio_network.LinkedList.Cycle.{absent}
use rio_network.LinkedList.Refine.{IsList}
use rio_network.LinkedList.Inside.{removed_back}
use rio_network.LinkedList.Loops.{empty_lem}
use rio_network.ObjectPool.{pool_free, PoolEffect, destroyed, ReusableObjectPool, destroy_kept}
use rio_network.ObjectPool.Queue.{contents, contents-congr, same-IsList}
use rio_network.ObjectPool.Reuse.{PoolReach, Reach-Holds}

-- The effects, the last first, of destroying these objects in order.
abbrev pub all_destroyed : List ℕ → List PoolEffect → List PoolEffect
all_destroyed [] out = out
all_destroyed (obj ∷ queue) out = all_destroyed queue (destroyed obj ∷ out)

-- The pool when the loop has seen the node `x`.
abbrev dropped : ℕ → ReusableObjectPool → ReusableObjectPool
dropped x r = record r {
  objpool = Allocator.free (r.nodes.data_of x) r.objpool;
  out = destroyed (r.nodes.data_of x) ∷ r.out;
  node_pool = Allocator.free x r.node_pool;
  nodes = delete_node x (erase x r.nodes);
}

dropped-IsList :
    {s : Nodes} (head x : ℕ) (l : List ℕ)
    → IsList s head (x ∷ l)
    → IsList (delete_node x (erase x s)) head l
unfolding delete_node erase set_data set_prev set_next
dropped-IsList {s} head x l v =
    let gone : IsList (remove x s) head l = record {
      linked = removed_back head [] x l v;
      once = λ z. omega (arith, v.once z);
    } in
    let off : (y : ℕ) → 0 < occurs y (head ∷ l) → (x == y) ≡ false =
      λ y h. ground (arith, absent y x (head ∷ l) h (ground (arith, v.once x))) in
    same-IsList head l gone (λ y h. (ground (arith, off y h), ground (arith, off y h)))

dropped-contents :
    (s : Nodes) (head x : ℕ) (l : List ℕ)
    → IsList s head (x ∷ l)
    → contents (delete_node x (erase x s)) l ≡ contents s l
unfolding delete_node erase remove tie_off set_data set_prev set_next
dropped-contents s head x l v =
    contents-congr s (delete_node x (erase x s)) l
      (λ y h. ground (arith, absent y x l h (ground (arith, v.once x))))

destroy_kept_lem :
    (fuel : ℕ) (r : ReusableObjectPool) (l : List ℕ)
    → IsList r.nodes r.head l
    → length l < fuel
    → (r' : ReusableObjectPool) × (destroy_kept fuel r ≡ some r')
      × (r'.out ≡ all_destroyed (contents r.nodes l) r.out)
      × IsList r'.nodes r'.head []
unfolding destroy_kept pool_free
destroy_kept_lem zero r l v h = absurd (omega arith)
destroy_kept_lem (suc fuel) r [] v h =
    (r, rw (destroy_kept, empty_lem r.nodes r.head [] v) refl, refl, v)
destroy_kept_lem (suc fuel) r (x ∷ l) v h =
    let (r', ran, out, bare) =
      destroy_kept_lem fuel (dropped x r) l (dropped-IsList r.head x l v) (omega (arith, h)) in
    (
      r',
      rw (destroy_kept, empty_lem r.nodes r.head (x ∷ l) v)
          (ap (λ y. destroy_kept fuel (dropped y r)) v.linked.0 ∙ ran),
      out
          ∙ ap (λ q. all_destroyed q (destroyed (r.nodes.data_of x) ∷ r.out))
              (dropped-contents r.nodes r.head x l v),
      bare,
    )

length-contents : (s : Nodes) (l : List ℕ) → length (contents s l) ≡ length l
length-contents s [] = refl
length-contents s (x ∷ l) = ap suc (length-contents s l)

-- The destructor ends, with one round more than there are kept objects; it destroys each of them,
-- once and in the order in which they were given back, and leaves the list of nodes empty.
pub destroy_kept-ends :
    {r : ReusableObjectPool} {queue chunks : List ℕ} (fuel : ℕ)
    → PoolReach r queue chunks
    → length queue < fuel
    → (r' : ReusableObjectPool) × (destroy_kept fuel r ≡ some r')
      × (r'.out ≡ all_destroyed queue r.out)
      × IsList r'.nodes r'.head []
destroy_kept-ends {r} fuel p h =
    let v = Reach-Holds p in
    let short : length v.members < fuel =
      omega (arith, h, ap length v.stored, length-contents r.nodes v.members) in
    let (r', ran, out, bare) = destroy_kept_lem fuel r v.members v.ring short in
    (r', ran, out ∙ ap (λ q. all_destroyed q r.out) v.stored, bare)
