-- ===== src/Allocator/General.antt =====
-- NetLib/NetLib/Allocator.h, class FastGeneralAllocator: a FastFixedAllocator for each class of
-- sizes, and what SmallObj and SmallObjectAllocPolicy make of it.
use rio_network.Base.{
  ℕ, zero, suc, ◌+◌, ◌-◌, ◌*◌, ◌/◌, ◌%◌, ◌^◌, Bool, true, false, Option, none, some, List, [], ◌∷◌,
  ltb, ◌==◌, ◌||◌, if◌then◌else◌, update,
}
use rio_network.Allocator.{FixedAllocator, new_fixed, Outcome, threw, returned}
use rio_network.Allocator as Allocator

-- The template's numbers and its allocators; `system_freed` are the pointers that went to
-- `std::free`, the last first.
pub record GeneralAllocator : Type 0 where
  pub grow_size : ℕ
  pub chunk : ℕ
  pub alloc_count : ℕ
  pub fixed_allocator : ℕ → FixedAllocator
  pub system_freed : List ℕ

-- `MAX_ALLOC`
abbrev pub max_alloc : GeneralAllocator → ℕ
max_alloc g = g.grow_size * g.alloc_count % 2 ^ 64

-- The loop of the constructor, `size` and `i` its variables.
unfoldable pub make_classes :
    (ℕ → ℕ) → ℕ → ℕ → ℕ → ℕ → ℕ → (ℕ → FixedAllocator) → ℕ → FixedAllocator
make_classes memory grow chunk zero size i f = f
make_classes memory grow chunk (suc left) size i f =
    let grown = (size + grow) % 2 ^ 64 in
    make_classes memory grow chunk left grown (i + 1) (update f i (new_fixed memory grown chunk))

-- The constructor. Behind the array there is what memory holds.
unfoldable pub new_general : (ℕ → ℕ) → (ℕ → FixedAllocator) → ℕ → ℕ → ℕ → GeneralAllocator
new_general memory beyond grow chunk count = record {
  grow_size = grow;
  chunk = chunk;
  alloc_count = count;
  fixed_allocator = make_classes memory grow chunk count 0 0 beyond;
  system_freed = [];
}

-- The index of the allocator; `none` is the null pointer.
unfoldable pub get_fixed_allocator : ℕ → GeneralAllocator → Option ℕ
get_fixed_allocator nbytes g =
    if ltb nbytes 1 || ltb (max_alloc g) nbytes then none else some ((nbytes - 1) / g.grow_size)

-- `default_allocator` and `default_deallocator`; `allocated` is what `std::malloc` answers.
unfoldable pub default_allocator : Bool → ℕ → Outcome
default_allocator use_throw allocated =
    if allocated == 0 then (if use_throw then threw else returned 0) else returned allocated

unfoldable pub default_deallocator : ℕ → GeneralAllocator → GeneralAllocator
default_deallocator p g = record g { system_freed = p ∷ g.system_freed }

-- One allocator has worked: all of them share the memory.
unfoldable pub put_fixed : ℕ → FixedAllocator → GeneralAllocator → GeneralAllocator
put_fixed i s g = record g {
  fixed_allocator = λ j. if i == j then s else record (g.fixed_allocator j) { next = s.next };
}

unfoldable pub alloc : ℕ → Bool → ℕ → Option ℕ → GeneralAllocator → GeneralAllocator × Outcome
alloc nbytes use_throw allocated granted g =
    if ltb (max_alloc g) nbytes
    then (g, default_allocator use_throw allocated)
    else elim (get_fixed_allocator nbytes g) [
      | none ↦ (g, if use_throw then threw else returned 0)
      | some i ↦
          let (s, o) = Allocator.alloc nbytes granted (g.fixed_allocator i) in (put_fixed i s g, o)
    ]

unfoldable pub free : ℕ → ℕ → GeneralAllocator → GeneralAllocator
free p nbytes g =
    if ltb (max_alloc g) nbytes
    then default_deallocator p g
    else elim (get_fixed_allocator nbytes g) [
      | none ↦ g
      | some i ↦ put_fixed i (Allocator.free p (g.fixed_allocator i)) g
    ]

-- `SmallObj::operator new` and `operator delete`.
unfoldable pub operator_new : ℕ → ℕ → Option ℕ → GeneralAllocator → GeneralAllocator × Outcome
operator_new size allocated granted g = alloc size true allocated granted g

unfoldable pub operator_delete : ℕ → ℕ → GeneralAllocator → GeneralAllocator
operator_delete p size g = free p size g

-- `SmallObjectAllocPolicy::allocate` and `deallocate` of `count` objects of `size_of` bytes.
unfoldable pub allocate : ℕ → ℕ → ℕ → Option ℕ → GeneralAllocator → GeneralAllocator × Outcome
allocate size_of count allocated granted g =
    alloc (size_of * count % 2 ^ 64) false allocated granted g

unfoldable pub deallocate : ℕ → ℕ → ℕ → GeneralAllocator → GeneralAllocator
deallocate size_of p count g = free p (size_of * count % 2 ^ 64) g

-- The sizes of `AllocatorSingleton`.
abbrev pub default_grow_size : ℕ
default_grow_size = 8

abbrev pub default_alloc_count : ℕ
default_alloc_count = 100

abbrev pub default_chunk : ℕ
default_chunk = 1024
