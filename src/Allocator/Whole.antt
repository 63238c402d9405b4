-- ===== src/Allocator/Whole.antt =====
-- The invariant of a FastFixedAllocator, and that filling its free list keeps it.
use rio_network.Base.{
  ℕ, zero, suc, ◌+◌, ◌-◌, ◌*◌, ◌%◌, ◌^◌, ◌≤◌, ◌<◌, ◌≡◌, refl, sym, ap, ap₂, subst, ◌∙◌, false, List,
  [], ◌∷◌, append-nil, arith, ◌==◌, occurs, update, some,
}
use rio_network.Allocator.{
  chunk_bytes, FixedAllocator, node_bytes, get_buffer, returned, alloc_chunk, link_nodes, rounds,
  filled, link_chunk, fill_free_node,
}
use rio_network.Allocator.Blocks.{
  blocks, blocks-split, le-mul, Chain, Chain-congr, Chain-push, link_nodes-Chain,
}
use rio_network.Allocator.Layout.{
  Layout, chunk-held, held-Layout, IsFresh, grown-Layout, fresh_chunk,
}

-- The bytes of a chunk.
abbrev pub area : FixedAllocator → ℕ
area s = node_bytes + s.chunk_size * s.alloc_size

-- Sizes that no type of the code overflows.
pub record IsSized (s : FixedAllocator) : Type 0 where
  pub holds_node : node_bytes ≤ s.alloc_size
  pub some_block : 0 < s.chunk_size
  pub counts : s.chunk_size < 2 ^ 31
  pub fits : area s < 2 ^ 64

-- What `alloc_chunk` asks of `new` is a chunk.
pub asked-IsFresh :
    (s : FixedAllocator) (c : ℕ) (chunks : List ℕ)
    → IsSized s
    → IsFresh (chunk_bytes s) c chunks
    → IsFresh (area s) c chunks
unfolding chunk_bytes
asked-IsFresh s c chunks z f =
    subst (λ n. IsFresh n c chunks) {x = chunk_bytes s} (omega (arith, z.fits)) f

-- The pointers spell the free blocks and the chunks; the free blocks and those in use stand side by
-- side in the chunks.
pub record Whole (s : FixedAllocator) (live free chunks : List ℕ) : Type 0 where
  pub sized : IsSized s
  pub frees : Chain s.next s.free_node free
  pub taken : Chain s.next s.chunk chunks
  pub layout : Layout s.alloc_size (area s) (λ a. occurs a free + occurs a live) chunks

-- Another allocator of the same sizes.
pub renewed-Whole :
    (s t : FixedAllocator) {live free chunks : List ℕ}
    → t.alloc_size ≡ s.alloc_size
    → t.chunk_size ≡ s.chunk_size
    → IsSized s
    → Chain t.next t.free_node free
    → Chain t.next t.chunk chunks
    → Layout s.alloc_size (area s) (λ a. occurs a free + occurs a live) chunks
    → Whole t live free chunks
renewed-Whole s t {live} {free} {chunks} size number z frees taken v =
    let same : area t ≡ area s = ap₂ (λ n m. node_bytes + n * m) number size in
    record {
      sized = record {
        holds_node = omega (arith, size, z.holds_node);
        some_block = omega (arith, number, z.some_block);
        counts = omega (arith, number, z.counts);
        fits = omega (arith, same, z.fits);
      };
      frees = frees;
      taken = taken;
      layout =
          subst (λ n. Layout n (area t) (λ a. occurs a free + occurs a live) chunks) (sym size)
            (subst (λ n. Layout s.alloc_size n (λ a. occurs a free + occurs a live) chunks)
              (sym same) v);
    }

-- What the loop leaves alone.
link_nodes-frame :
    (count start node : ℕ) (s : FixedAllocator)
    → (0 < count → node + s.alloc_size ≡ start + count * s.alloc_size)
    → let s' = link_nodes count node s in
      (s'.chunk ≡ s.chunk)
      × (s'.alloc_size ≡ s.alloc_size)
      × (s'.chunk_size ≡ s.chunk_size)
      × ((a : ℕ) → occurs a (blocks count s.alloc_size start) ≡ 0 → s'.next a ≡ s.next a)
unfolding link_nodes
link_nodes-frame zero start node s end = (refl, refl, refl, λ a h. refl)
link_nodes-frame (suc count) start node s end =
    let last : node ≡ start + count * s.alloc_size = omega (arith, end (omega arith)) in
    let s' : FixedAllocator = record s {
      next = update s.next node s.free_node;
      free_node = node;
    } in
    let (chunk, size, number, others) =
      link_nodes-frame count start (node - s.alloc_size) s'
        (λ some_left. omega (arith, last, le-mul count s.alloc_size some_left)) in
    (
      chunk,
      size,
      number,
      λ a h.
          let split = blocks-split count s.alloc_size start a in
          others a (omega (arith, h, split)) ∙ ground (arith, h, split, last),
    )

rounds-small : (count : ℕ) → count < 2 ^ 31 → rounds count ≡ count
rounds-small count h = ground arith

-- The last block of a chunk.
last_node :
    (c size count : ℕ)
    → node_bytes ≤ size
    → 0 < count
    → c + (node_bytes + count * size) ≤ 2 ^ 64
    → (get_buffer c + size * count - size) % 2 ^ 64 ≡ c + (node_bytes + count * size) - size
last_node c size count h k f = omega (arith, le-mul count size k)

-- The call of `new` in `alloc_chunk`, granted.
alloc_chunk-granted :
    (c : ℕ) (s : FixedAllocator)
    → IsSized s
    → alloc_chunk (some c) s ≡ (record s { next = update s.next c s.chunk; chunk = c }, returned c)
unfolding alloc_chunk
alloc_chunk-granted c s z = ground (arith, z)

-- The chunk becomes free blocks.
pub fill_free_node-granted :
    (c : ℕ) (s : FixedAllocator)
    → IsSized s
    → 0 < c
    → c + area s ≤ 2 ^ 64
    → fill_free_node (some c) s ≡ (
      link_nodes s.chunk_size
          (c + area s - s.alloc_size)
          (record s { next = update s.next c s.chunk; chunk = c }),
      filled,
    )
unfolding fill_free_node link_chunk
fill_free_node-granted c s z p f =
    let real : (c == 0) ≡ false = ground (arith, p) in
    ap link_chunk (alloc_chunk-granted c s z)
    ∙ rw
        (
          link_chunk,
          real,
          rounds-small s.chunk_size z.counts,
          last_node c s.alloc_size s.chunk_size z.holds_node z.some_block f,
        )
        refl

pub filled-Whole :
    (c : ℕ) (s : FixedAllocator) {live chunks : List ℕ}
    → Whole s live [] chunks
    → IsFresh (area s) c chunks
    → Whole
        (fill_free_node (some c) s).0
        live
        (blocks s.chunk_size s.alloc_size (get_buffer c))
        (c ∷ chunks)
filled-Whole c s {live} {chunks} w f =
    subst (λ t. Whole t live new (c ∷ chunks))
      (sym (ap (λ r. r.0) (fill_free_node-granted c s w.sized f.positive f.ends)))
      (renewed-Whole s (link_nodes s.chunk_size node s') frame.1 frame.2 w.sized frees taken
        (held-Layout grown (λ a. occurs a new + occurs a live) (λ a. omega arith)))
  where
    new : List ℕ
    new = blocks s.chunk_size s.alloc_size (get_buffer c)

    node : ℕ
    node = c + area s - s.alloc_size

    s' : FixedAllocator
    s' = record s { next = update s.next c s.chunk; chunk = c }

    grown : Layout s.alloc_size (area s) (λ a. occurs a new + (0 + occurs a live)) (c ∷ chunks)
    grown = grown-Layout w.layout s.chunk_size c (omega (arith, w.sized.holds_node)) refl f

    ends : 0 < s.chunk_size → node + s.alloc_size ≡ get_buffer c + s.chunk_size * s.alloc_size
    ends h = omega (arith, le-mul s.chunk_size s.alloc_size h)

    frame :
        let t = link_nodes s.chunk_size node s' in
        (t.chunk ≡ c)
        × (t.alloc_size ≡ s.alloc_size)
        × (t.chunk_size ≡ s.chunk_size)
        × ((a : ℕ) → occurs a new ≡ 0 → t.next a ≡ s'.next a)
    frame = link_nodes-frame s.chunk_size (get_buffer c) node s' ends

    frees : let t = link_nodes s.chunk_size node s' in Chain t.next t.free_node new
    frees =
        let t = link_nodes s.chunk_size node s' in
        subst (Chain t.next t.free_node) (append-nil new) (
          link_nodes-Chain s.chunk_size (get_buffer c) node s' [] (omega arith)
            (omega (arith, w.sized.holds_node)) ends (λ a low high. refl) w.frees)

    taken : let t = link_nodes s.chunk_size node s' in Chain t.next t.chunk (c ∷ chunks)
    taken =
        let t = link_nodes s.chunk_size node s' in
        subst (λ q. Chain t.next q (c ∷ chunks)) (sym frame.0)
          (Chain-congr c (c ∷ chunks)
            (λ a h.
              sym (
                frame.3 a
                  (omega (arith, chunk-held grown (omega (arith, w.sized.holds_node)) a h))))
            (Chain-push s.next s.chunk c chunks f.positive
              (fresh_chunk w.layout s.chunk_size c (omega (arith, w.sized.holds_node)) refl f)
              w.taken))

-- A new chunk changes no size.
pub filled_sizes :
    (c : ℕ) (s : FixedAllocator)
    → IsSized s
    → 0 < c
    → c + area s ≤ 2 ^ 64
    → let t = (fill_free_node (some c) s).0 in
      (t.alloc_size ≡ s.alloc_size) × (t.chunk_size ≡ s.chunk_size)
filled_sizes c s z p f =
    let s' : FixedAllocator = record s { next = update s.next c s.chunk; chunk = c } in
    let frame =
      link_nodes-frame s.chunk_size (get_buffer c) (c + area s - s.alloc_size) s'
        (λ h. omega (arith, le-mul s.chunk_size s.alloc_size h)) in
    subst (λ t. (t.alloc_size ≡ s.alloc_size) × (t.chunk_size ≡ s.chunk_size))
      (sym (ap (λ r. r.0) (fill_free_node-granted c s z p f))) (frame.1, frame.2)
