-- ===== src/Allocator/Tests.antt =====
-- An allocator of blocks of 16 bytes, two to a chunk, and the theorems at it.
use rio_network.Base.{
  ℕ, ◌+◌, ◌≤◌, ◌<◌, ◌≡◌, ◌⊎◌, refl, subst, [], arith, occurs, without, some, none, Option,
}
use rio_network.Allocator.{
  chunk_bytes, FixedAllocator, new_fixed, node_bytes, get_buffer, alloc_chunk, link_nodes,
  link_chunk, fill_free_node, pop_node, pop_filled, alloc, free, threw, returned,
}
use rio_network.Allocator.Layout.{IsFresh, Apart}
use rio_network.Allocator.Whole.{area}
use rio_network.Allocator.Run.{Heap, after_alloc, allocate, release, HeapReach, construct, followed}
use rio_network.Allocator.Safety.{live-Apart, alloc_outcome}
use rio_network.Allocator.General.{
  GeneralAllocator, new_general, get_fixed_allocator, operator_new, operator_delete,
  default_grow_size, default_alloc_count, default_chunk,
}
use rio_network.Allocator.Classes.{new_general-IsGeneral, get_fixed_allocator_lem}
use rio_network.Allocator.SmallObj.{operator_new-operator_delete}

abbrev blank : ℕ → ℕ
blank a = 0

abbrev pairs : FixedAllocator
pairs = new_fixed blank 16 2

abbrev unused : Heap
unused = record { allocator = pairs; live = []; chunks = [] }

abbrev first : Heap
first = after_alloc unused (alloc 16 (some 1000) pairs)

abbrev both : Heap
both = after_alloc first (alloc 9 none first.allocator)

abbrev one_back : Heap
one_back = record both { allocator = free 1008 both.allocator; live = without 1008 both.live }

abbrev full : Heap
full = after_alloc one_back (alloc 16 none one_back.allocator)

fresh_1000 : IsFresh 40 1000 []
fresh_1000 = record {
  positive = omega arith;
  ends = omega arith;
  off = λ d h. absurd (omega (arith, h));
}

some-lem : (c : ℕ) → ◌≡◌ {A = Option ℕ} (some 1000) (some c) → 1000 ≡ c
some-lem c e = cc

one_back-Reach : HeapReach one_back
unfolding new_fixed chunk_bytes alloc_chunk link_nodes link_chunk fill_free_node pop_node pop_filled
    alloc free
one_back-Reach =
    followed
      (followed
        (followed
          (construct blank 16 2 (record {
            holds_node = omega arith;
            some_block = omega arith;
            counts = omega arith;
            fits = omega arith;
          }))
          (allocate unused 16 (some 1000)
            (λ c e. subst (λ x. IsFresh 40 x []) (some-lem c e) fresh_1000)))
        (allocate first 9 none (λ c e. absurd (cc))))
      (release both 1008 (omega arith))

full-Reach : HeapReach full
full-Reach = followed one_back-Reach (allocate one_back 16 none (λ c e. absurd (cc)))

live-Apart_example :
    ((◌≡◌ {A = ℕ} 1008 1024) ⊎ Apart full.allocator.alloc_size 1008 1024)
    × (occurs 1008 full.live ≤ 1)
    × ((c : ℕ) × (0 < occurs c full.chunks)
        × (get_buffer c ≤ 1008)
        × (1008 + full.allocator.alloc_size ≤ c + area full.allocator))
unfolding new_fixed alloc_chunk link_nodes link_chunk fill_free_node pop_node pop_filled alloc free
live-Apart_example = live-Apart full-Reach 1008 1024 (omega arith) (omega arith)

alloc_outcome_example :
    let s = full.allocator in
    ((s.alloc_size < 16) × (alloc 16 none s ≡ (s, returned 0)))
    ⊎ ((16 ≤ s.alloc_size)
        × (s.free_node ≡ 0)
        × (◌≡◌ {A = Option ℕ} none none)
        × (alloc 16 none s ≡ (s, threw)))
    ⊎ ((16 ≤ s.alloc_size)
        × ((p : ℕ) × ((alloc 16 none s).1 ≡ returned p) × (0 < p) × (occurs p full.live ≡ 0)))
alloc_outcome_example = alloc_outcome full-Reach 16 none (λ c e. absurd (cc))

abbrev small_objects : GeneralAllocator
small_objects = new_general blank (λ i. pairs) default_grow_size default_chunk default_alloc_count

get_fixed_allocator_lem_example :
    (i : ℕ) × (get_fixed_allocator 100 small_objects ≡ some i)
    × (i < default_alloc_count)
    × (100 ≤ (small_objects.fixed_allocator i).alloc_size)
    × (((small_objects.fixed_allocator i).alloc_size < 100 + default_grow_size)
        ⊎ ((small_objects.fixed_allocator i).alloc_size ≡ node_bytes))
get_fixed_allocator_lem_example =
    get_fixed_allocator_lem blank (λ i. pairs) default_grow_size default_chunk default_alloc_count
      100 (omega arith) (omega arith) (omega arith) (omega arith)

operator_new-operator_delete_example :
    (operator_new 97 0 none (operator_delete 5000 100 small_objects)).1 ≡ returned 5000
unfolding new_general
operator_new-operator_delete_example =
    operator_new-operator_delete small_objects 5000 100 97 0 none
      (new_general-IsGeneral blank (λ i. pairs) default_grow_size default_chunk default_alloc_count
        (omega arith) (omega arith))
      (omega arith) (omega arith) (omega arith) (omega arith) (omega arith) refl
