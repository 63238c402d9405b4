-- ===== src/Allocator.antt =====
-- NetLib/NetLib/Allocator.h, class FastFixedAllocator: blocks of one size, cut from chunks of
-- memory, on a free list that runs through the free blocks themselves.
pub mod Blocks
pub mod Layout
pub mod Whole
pub mod Alloc
pub mod Run
pub mod Safety
pub mod General
pub mod Classes
pub mod SmallObj
mod Tests
use rio_network.Base.{
  ℕ, zero, suc, ◌+◌, ◌-◌, ◌*◌, ◌%◌, ◌^◌, Bool, true, false, Option, none, some, List, [], ◌∷◌, ltb,
  ◌==◌, ◌||◌, if◌then◌else◌, to_int, pos_part, update,
}

-- `next` is the memory: the pointer that stands at an address, `next_` of a free node or of a chunk.
-- The address 0 is NULL.
pub record FixedAllocator : Type 0 where
  pub next : ℕ → ℕ
  pub chunk : ℕ
  pub free_node : ℕ
  pub alloc_size : ℕ
  pub chunk_size : ℕ

-- `sizeof(FreeNode)` and `sizeof(Chunk)`: one pointer each.
abbrev pub node_bytes : ℕ
node_bytes = 8

abbrev pub default_chunk_size : ℕ
default_chunk_size = 64

-- The constructor; the memory is what the process has.
unfoldable pub new_fixed : (ℕ → ℕ) → ℕ → ℕ → FixedAllocator
new_fixed memory alloc_size chunk_count = record {
  next = memory;
  chunk = 0;
  free_node = 0;
  alloc_size = if ltb alloc_size node_bytes then node_bytes else alloc_size;
  chunk_size = if ltb chunk_count 1 then default_chunk_size else chunk_count;
}

-- `Chunk::get_buffer`
abbrev pub get_buffer : ℕ → ℕ
get_buffer p = p + node_bytes

-- What a call leaves behind: a pointer, or the exception `bad_alloc`.
pub data Outcome : Type 0 where
  threw : Outcome
  returned : ℕ → Outcome

-- What `alloc_chunk` asks of `new char[]`.
unfoldable pub chunk_bytes : FixedAllocator → ℕ
chunk_bytes s = (node_bytes + s.alloc_size * s.chunk_size) % 2 ^ 64

-- `granted` is what `new` answers: `none` when it throws.
unfoldable pub alloc_chunk : Option ℕ → FixedAllocator → FixedAllocator × Outcome
alloc_chunk granted s =
    if ltb s.alloc_size 1 || ltb s.chunk_size 1 then (s, returned 0) else elim granted [
      | none ↦ (s, threw)
      | some p ↦ (record s { next = update s.next p s.chunk; chunk = p }, returned p)
    ]

-- The loop of `fill_free_node`, `i + 1` its counter and `node` the pointer that runs down.
unfoldable pub link_nodes : ℕ → ℕ → FixedAllocator → FixedAllocator
link_nodes zero node s = s
link_nodes (suc i) node s =
    link_nodes i (node - s.alloc_size)
      (record s { next = update s.next node s.free_node; free_node = node })

-- How often that loop runs: its counter is an `int`.
abbrev pub rounds : ℕ → ℕ
rounds count = pos_part (to_int (count % 2 ^ 32))

-- The flag, and whether `new` threw.
pub data Filled : Type 0 where
  bad_alloc empty filled : Filled

-- `fill_free_node` behind its call of `alloc_chunk`.
unfoldable pub link_chunk : FixedAllocator × Outcome → FixedAllocator × Filled
link_chunk (s, threw) = (s, bad_alloc)
link_chunk (s, returned p) = if p == 0 then (s, empty) else (
  link_nodes (rounds s.chunk_size)
      ((get_buffer p + s.alloc_size * s.chunk_size - s.alloc_size) % 2 ^ 64) s,
  filled,
)

unfoldable pub fill_free_node : Option ℕ → FixedAllocator → FixedAllocator × Filled
fill_free_node granted s = link_chunk (alloc_chunk granted s)

unfoldable pub pop_node : FixedAllocator → FixedAllocator × Outcome
pop_node s = (record s { free_node = s.next s.free_node }, returned s.free_node)

-- `alloc` behind its call of `fill_free_node`.
unfoldable pub pop_filled : FixedAllocator × Filled → FixedAllocator × Outcome
pop_filled (s, bad_alloc) = (s, threw)
pop_filled (s, empty) = (s, returned 0)
pop_filled (s, filled) = pop_node s

unfoldable pub alloc : ℕ → Option ℕ → FixedAllocator → FixedAllocator × Outcome
alloc nbytes granted s =
    if ltb s.alloc_size nbytes
    then (s, returned 0)
    else if s.free_node == 0
    then pop_filled (fill_free_node granted s)
    else pop_node s

unfoldable pub free : ℕ → FixedAllocator → FixedAllocator
free p s = if p == 0 then s else record s { next = update s.next p s.free_node; free_node = p }

-- The chunks that the loop gives back to `delete[]`, in order; `none` when it has not ended.
unfoldable pub free_all_chunk : ℕ → (ℕ → ℕ) → ℕ → Option (List ℕ)
free_all_chunk zero next p = none
free_all_chunk (suc fuel) next p =
    let rest = free_all_chunk fuel next (next p) in
    if p == 0 then some [] else elim rest [ none ↦ none | some l ↦ some (p ∷ l) ]

unfoldable pub free_all : ℕ → FixedAllocator → Option (FixedAllocator × List ℕ)
free_all fuel s = elim (free_all_chunk fuel s.next s.chunk) [
  | none ↦ none
  | some l ↦ some (record s { free_node = 0; chunk = 0 }, l)
]
