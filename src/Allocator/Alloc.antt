-- ===== src/Allocator/Alloc.antt =====
-- `alloc`, `free` and the user's writes keep the invariant of a FastFixedAllocator.
use rio_network.Base.{
  ℕ, ◌+◌, ◌≤◌, ◌<◌, ◌≡◌, refl, sym, ap, subst, ◌⊎◌, inl, inr, true, false, List, [], ◌∷◌, arith,
  ltb, ◌==◌, if◌then◌else◌, Bool-cases, occurs, some, none, Option,
}
use rio_network.Allocator.{
  FixedAllocator, get_buffer, Outcome, threw, returned, alloc_chunk, link_chunk, fill_free_node,
  pop_node, pop_filled, alloc, free,
}
use rio_network.Allocator.Blocks.{blocks, blocks-front, Chain, Chain-congr, Chain-push}
use rio_network.Allocator.Layout.{IsFresh, held-Layout, header_off, chunk-held}
use rio_network.Allocator.Whole.{
  area, IsSized, Whole, filled-Whole, filled_sizes, fill_free_node-granted,
}

-- The sizes never change.
resized :
    (s : FixedAllocator) (next : ℕ → ℕ) (free_node : ℕ)
    → IsSized s
    → IsSized (record s { next = next; free_node = free_node })
resized s next free_node z = record {
  holds_node = z.holds_node;
  some_block = z.some_block;
  counts = z.counts;
  fits = z.fits;
}

-- The first free block is handed out.
pop_node-Whole :
    {s : FixedAllocator} {live spare chunks : List ℕ} (p : ℕ)
    → Whole s live (p ∷ spare) chunks
    → ((pop_node s).1 ≡ returned p) × Whole (pop_node s).0 (p ∷ live) spare chunks
unfolding pop_node
pop_node-Whole {s} {live} {spare} {chunks} p w =
    let (at, some_p, rest) = w.frees in
    (
      ap returned at,
      record {
        sized = resized s _ _ w.sized;
        frees = subst (λ q. Chain s.next (s.next q) spare) (sym at) rest;
        taken = w.taken;
        layout =
            held-Layout w.layout (λ a. occurs a spare + occurs a (p ∷ live)) (λ a. omega arith);
      },
    )

-- The order of the blocks in use does not matter.
pub reordered-Whole :
    {s : FixedAllocator} {live spare chunks : List ℕ} (live' : List ℕ)
    → Whole s live spare chunks
    → ((a : ℕ) → occurs a live' ≡ occurs a live)
    → Whole s live' spare chunks
reordered-Whole {s} {live} {spare} {chunks} live' w same = record {
  sized = w.sized;
  frees = w.frees;
  taken = w.taken;
  layout = held-Layout w.layout (λ a. occurs a spare + occurs a live') (λ a. omega (arith, same a));
}

-- Memory that changes neither the free blocks nor the heads of the chunks.
pub written-Whole :
    {s : FixedAllocator} {live spare chunks : List ℕ} (next : ℕ → ℕ)
    → Whole s live spare chunks
    → ((a : ℕ) → 0 < occurs a spare → s.next a ≡ next a)
    → ((c : ℕ) → 0 < occurs c chunks → s.next c ≡ next c)
    → Whole (record s { next = next }) live spare chunks
written-Whole {s} {live} {spare} {chunks} next w off heads = record {
  sized = resized s _ _ w.sized;
  frees = Chain-congr s.free_node spare off w.frees;
  taken = Chain-congr s.chunk chunks heads w.taken;
  layout = w.layout;
}

-- A write inside a block in use.
pub user-Whole :
    {s : FixedAllocator} {live spare chunks : List ℕ} (p : ℕ) (next : ℕ → ℕ)
    → Whole s live spare chunks
    → 0 < occurs p live
    → ((a : ℕ) → (a < p) ⊎ (p + s.alloc_size ≤ a) → next a ≡ s.next a)
    → Whole (record s { next = next }) live spare chunks
user-Whole {s} {live} {spare} {chunks} p next w used off =
    let size : 0 < s.alloc_size = omega (arith, w.sized.holds_node) in
    written-Whole next w
      (λ a h. sym (
        off a (
          let other : (a == p) ≡ false = ground (arith, h, used, w.layout.once p) in
          elim (w.layout.apart a p (omega arith) (omega (arith, used)) other) [
            | inl before ↦ inl (omega arith)
            | inr behind ↦ inr (omega arith)
          ])))
      (λ c h. sym (
        off c (elim (header_off w.layout size p c (omega (arith, used)) h) [
          | inl behind ↦ inl (omega arith)
          | inr before ↦ inr (omega arith)
        ])))

-- `free` of a block in use.
pub free-Whole :
    {s : FixedAllocator} {live spare chunks : List ℕ} (p : ℕ) (live' : List ℕ)
    → Whole s live spare chunks
    → ((a : ℕ) → occurs a live ≡ (if p == a then 1 else 0) + occurs a live')
    → Whole (free p s) live' (p ∷ spare) chunks
unfolding free
free-Whole {s} {live} {spare} {chunks} p live' w taken_out =
    let size : 0 < s.alloc_size = omega (arith, w.sized.holds_node) in
    let used : 0 < occurs p live = ground (arith, taken_out p) in
    let (c, of, low, high) = w.layout.inside p (omega (arith, used)) in
    let real : (p == 0) ≡ false = ground (arith, low) in
    rw real (record {
      sized = resized s _ _ w.sized;
      frees =
          Chain-push s.next s.free_node p spare (omega (arith, low))
            (omega (arith, used, w.layout.once p)) w.frees;
      taken =
          Chain-congr s.chunk chunks
            (λ d h. ground (arith, used, chunk-held w.layout size d h, taken_out p)) w.taken;
      layout =
          held-Layout w.layout (λ a. occurs a (p ∷ spare) + occurs a live')
            (λ a. omega (arith, taken_out a));
    })

-- What `alloc` has handed out.
pub record Handed (s : FixedAllocator) (granted : Option ℕ) (live chunks : List ℕ)
    (r : FixedAllocator × Outcome) : Type 0 where
  pub block : ℕ
  pub spare : List ℕ
  pub chunks_now : List ℕ
  pub gave : r.1 ≡ returned block
  pub positive : 0 < block
  pub unused : occurs block live ≡ 0
  pub whole : Whole r.0 (block ∷ live) spare chunks_now
  pub sizes : (r.0.alloc_size ≡ s.alloc_size) × (r.0.chunk_size ≡ s.chunk_size)
  pub same_or_grown :
      ((r.0.chunk ≡ s.chunk) × (chunks_now ≡ chunks))
      ⊎ ((c : ℕ) × (granted ≡ some c)
          × (s.free_node ≡ 0)
          × (r.0.chunk ≡ c)
          × (chunks_now ≡ c ∷ chunks))

popped-Handed :
    {s : FixedAllocator} {live chunks : List ℕ} (granted : Option ℕ) (t : FixedAllocator) (p : ℕ)
    (spare chunks_now : List ℕ)
    → Whole t live (p ∷ spare) chunks_now
    → (t.alloc_size ≡ s.alloc_size) × (t.chunk_size ≡ s.chunk_size)
    → ((t.chunk ≡ s.chunk) × (chunks_now ≡ chunks))
      ⊎ ((c : ℕ) × (granted ≡ some c)
          × (s.free_node ≡ 0)
          × (t.chunk ≡ c)
          × (chunks_now ≡ c ∷ chunks))
    → Handed s granted live chunks (pop_node t)
popped-Handed {s} {live} {chunks} granted t p spare chunks_now w sizes origin =
    let (gave, after) = pop_node-Whole p w in
    record {
      block = p;
      spare = spare;
      chunks_now = chunks_now;
      gave = gave;
      positive = w.frees.1;
      unused = ground (arith, w.layout.once p);
      whole = after;
      sizes = unfold pop_node in sizes;
      same_or_grown = unfold pop_node in origin;
    }

alloc_chunk-refused : (s : FixedAllocator) → IsSized s → alloc_chunk none s ≡ (s, threw)
unfolding alloc_chunk
alloc_chunk-refused s z = ground (arith, z)

-- The first block of a new chunk is handed out.
filled-Handed :
    {s : FixedAllocator} {live chunks : List ℕ} (c : ℕ)
    → Whole s live [] chunks
    → IsFresh (area s) c chunks
    → Handed s (some c) live chunks (pop_filled (fill_free_node (some c) s))
unfolding pop_filled
filled-Handed {s} {live} {chunks} c w f =
    let t : FixedAllocator = (fill_free_node (some c) s).0 in
    let v : Whole t live (blocks s.chunk_size s.alloc_size (get_buffer c)) (c ∷ chunks) =
      filled-Whole c s w f in
    let (l, front) = blocks-front s.chunk_size s.alloc_size (get_buffer c) w.sized.some_block in
    subst (λ d. Handed s (some c) live chunks (pop_filled (t, d)))
      (sym (ap (λ r. r.1) (fill_free_node-granted c s w.sized f.positive f.ends)))
      (popped-Handed (some c) t (get_buffer c) l (c ∷ chunks)
        (subst (λ b. Whole t live b (c ∷ chunks)) front v)
        (filled_sizes c s w.sized f.positive f.ends) (inr (c, refl, w.frees, v.taken.0, refl)))

-- `alloc` on every branch: too large a request is answered NULL, `bad_alloc` comes out when a new
-- chunk is needed and refused, and otherwise a block is handed out that nobody has.
pub alloc-Cases :
    {s : FixedAllocator} {live chunks : List ℕ} (nbytes : ℕ) (granted : Option ℕ) (spare : List ℕ)
    → Whole s live spare chunks
    → ((c : ℕ) → granted ≡ some c → IsFresh (area s) c chunks)
    → ((s.alloc_size < nbytes) × (alloc nbytes granted s ≡ (s, returned 0)))
      ⊎ ((nbytes ≤ s.alloc_size)
          × (s.free_node ≡ 0)
          × (granted ≡ none)
          × (alloc nbytes granted s ≡ (s, threw)))
      ⊎ ((nbytes ≤ s.alloc_size) × Handed s granted live chunks (alloc nbytes granted s))
unfolding alloc pop_filled fill_free_node link_chunk
alloc-Cases {s} {live} {chunks} nbytes granted spare w fresh =
    elim (Bool-cases (ltb s.alloc_size nbytes)) [
      | inl large ↦ inl (ground arith, rw large refl)
      | inr fits ↦
          let small : nbytes ≤ s.alloc_size = ground arith in
          rw fits (go small spare w granted fresh)
    ]
  where
    go :
        nbytes ≤ s.alloc_size
        → (spare : List ℕ) → Whole s live spare chunks
        → (granted : Option ℕ) → ((c : ℕ) → granted ≡ some c → IsFresh (area s) c chunks)
        → let r = if s.free_node == 0 then pop_filled (fill_free_node granted s) else pop_node s in
          ((s.alloc_size < nbytes) × (r ≡ (s, returned 0)))
          ⊎ ((nbytes ≤ s.alloc_size) × (s.free_node ≡ 0) × (granted ≡ none) × (r ≡ (s, threw)))
          ⊎ ((nbytes ≤ s.alloc_size) × Handed s granted live chunks r)
    go small (p ∷ l) v g f =
        let some_node : (s.free_node == 0) ≡ false = ground (arith, v.frees.0, v.frees.1) in
        rw some_node
          (inr (inr (small, popped-Handed g s p l chunks v (refl, refl) (inl (refl, refl)))))
    go small [] v none f =
        let no_node : (s.free_node == 0) ≡ true = ground (arith, v.frees) in
        rw no_node (
          inr (
            inl (
              small,
              v.frees,
              refl,
              ap (λ r. pop_filled (link_chunk r)) (alloc_chunk-refused s w.sized),
            )))
    go small [] v (some c) f =
        let no_node : (s.free_node == 0) ≡ true = ground (arith, v.frees) in
        rw no_node (inr (inr (small, filled-Handed c v (f c refl))))
