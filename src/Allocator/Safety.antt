-- ===== src/Allocator/Safety.antt =====
-- What the users of a FastFixedAllocator rely on.
use rio_network.Base.{
  ℕ, zero, suc, ◌+◌, ◌≤◌, ◌<◌, ◌≡◌, refl, sym, ap, subst, ◌⊎◌, inl, inr, true, false, List, [], ◌∷◌,
  arith, ltb, ◌==◌, Bool-cases, occurs, update, some, none, Option, length,
}
use rio_network.Allocator.{
  FixedAllocator, chunk_bytes, get_buffer, threw, returned, pop_node, alloc, free, free_all_chunk,
  free_all,
}
use rio_network.Allocator.Blocks.{Chain}
use rio_network.Allocator.Layout.{IsFresh, Apart}
use rio_network.Allocator.Whole.{area, asked-IsFresh}
use rio_network.Allocator.Alloc.{alloc-Cases}
use rio_network.Allocator.Run.{Heap, HeapReach, Reach-Kept}

-- The loop of `free_all_chunk` over the chunks that the pointers spell.
free_all_chunk_lem :
    (fuel : ℕ) (next : ℕ → ℕ) (p : ℕ) (l : List ℕ)
    → Chain next p l
    → length l < fuel
    → free_all_chunk fuel next p ≡ some l
unfolding free_all_chunk
free_all_chunk_lem zero next p l c h = absurd (omega arith)
free_all_chunk_lem (suc fuel) next p [] c h =
    let null : (p == 0) ≡ true = ground (arith, c) in rw null refl
free_all_chunk_lem (suc fuel) next p (a ∷ l) (at, some_a, rest) h =
    let real : (p == 0) ≡ false = ground (arith, at, some_a) in
    let behind =
      free_all_chunk_lem fuel next (next p) l (subst (λ q. Chain next (next q) l) (sym at) rest)
        (omega arith) in
    rw (real, behind) (ap (λ q. some (q ∷ l)) at)

-- A block that is given back is the next to be handed out, with no call of `new`.
pub alloc-free :
    (s : FixedAllocator) (p nbytes : ℕ) (granted : Option ℕ)
    → 0 < p
    → nbytes ≤ s.alloc_size
    → alloc nbytes granted (free p s)
      ≡ (record s { next = update s.next p s.free_node }, returned p)
unfolding alloc free pop_node
alloc-free s p nbytes granted real small =
    let some_p : (p == 0) ≡ false = ground (arith, real) in
    let fits : ltb s.alloc_size nbytes ≡ false = ground (arith, small) in
    let same : (p == p) ≡ true = ground arith in
    rw (free, some_p, alloc, fits, some_p, pop_node, same) refl

module _ {h : Heap} (r : HeapReach h) where
  -- In whatever order blocks are asked for, written to and given back, two blocks in use are one
  -- and the same or do not overlap, none is in use twice, and each stands inside a chunk that `new`
  -- gave, behind its pointer to the next chunk.
  pub live-Apart :
      (a b : ℕ)
      → 0 < occurs a h.live
      → 0 < occurs b h.live
      → ((a ≡ b) ⊎ Apart h.allocator.alloc_size a b)
        × (occurs a h.live ≤ 1)
        × ((c : ℕ) × (0 < occurs c h.chunks)
            × (get_buffer c ≤ a)
            × (a + h.allocator.alloc_size ≤ c + area h.allocator))
  live-Apart a b k l =
      let (spare, w) = Reach-Kept r in
      (
        elim (Bool-cases (a == b)) [
          | inl same ↦ inl (ground arith)
          | inr other ↦ inr (w.layout.apart a b (omega (arith, k)) (omega (arith, l)) other)
        ],
        omega (arith, w.layout.once a),
        w.layout.inside a (omega (arith, k)),
      )

  -- A call of `alloc` answers NULL exactly when more is asked for than a block holds, throws
  -- exactly when a chunk is needed and `new` gives none, both leaving the allocator as it was, and
  -- otherwise hands out a block that nobody has.
  pub alloc_outcome :
      (nbytes : ℕ) (granted : Option ℕ)
      → ((c : ℕ) → granted ≡ some c → IsFresh (chunk_bytes h.allocator) c h.chunks)
      → let s = h.allocator in
        ((s.alloc_size < nbytes) × (alloc nbytes granted s ≡ (s, returned 0)))
        ⊎ ((nbytes ≤ s.alloc_size)
            × (s.free_node ≡ 0)
            × (granted ≡ none)
            × (alloc nbytes granted s ≡ (s, threw)))
        ⊎ ((nbytes ≤ s.alloc_size)
            × ((p : ℕ) × ((alloc nbytes granted s).1 ≡ returned p)
                × (0 < p)
                × (occurs p h.live ≡ 0)))
  alloc_outcome nbytes granted fresh =
      let (spare, w) = Reach-Kept r in
      elim (alloc-Cases nbytes granted spare w
        (λ c e. asked-IsFresh h.allocator c h.chunks w.sized (fresh c e))) [
          | inl large ↦ inl large
          | inr (inl refused) ↦ inr (inl refused)
          | inr (inr (small, b)) ↦ inr (inr (small, (b.block, b.gave, b.positive, b.unused)))
        ]

  -- `free_all` ends, and gives every chunk that `new` gave to `delete[]`, once.
  pub free_all_lem :
      (fuel : ℕ)
      → length h.chunks < fuel
      → (free_all fuel h.allocator
          ≡ some (record (h.allocator) { free_node = 0; chunk = 0 }, h.chunks))
        × ((c : ℕ) → occurs c h.chunks ≤ 1)
  unfolding free_all
  free_all_lem fuel enough =
      let (spare, w) = Reach-Kept r in
      (
        rw
            (
              free_all_chunk_lem fuel h.allocator.next h.allocator.chunk h.chunks w.taken enough,
              free_all,
            )
            refl,
        w.layout.chunk_once,
      )
