-- ===== src/Allocator/Run.antt =====
-- A FastFixedAllocator in use: any order of calls of `alloc` and `free`, with the users writing to
-- their blocks and the rest of the process to its own memory.
use rio_network.Base.{
  ℕ, zero, suc, ◌+◌, ◌≤◌, ◌<◌, ◌≡◌, refl, sym, ap, subst, ◌∙◌, ◌⊎◌, inl, inr, true, false, List, [],
  ◌∷◌, arith, ◌==◌, if◌then◌else◌, occurs, without, without-occurs, some, Option,
}
use rio_network.Allocator.{
  chunk_bytes, FixedAllocator, new_fixed, Outcome, threw, returned, alloc, free,
}
use rio_network.Allocator.Blocks.{Chain}
use rio_network.Allocator.Layout.{IsFresh, fresh_chunk}
use rio_network.Allocator.Whole.{area, IsSized, asked-IsFresh, Whole}
use rio_network.Allocator.Alloc.{Handed, alloc-Cases, free-Whole, user-Whole, written-Whole}

-- The allocator, the blocks in use, and the chunks that it got of `new`.
pub record Heap : Type 0 where
  pub allocator : FixedAllocator
  pub live : List ℕ
  pub chunks : List ℕ

abbrev handed : Outcome → List ℕ → List ℕ
handed threw l = l
handed (returned zero) l = l
handed (returned (suc p)) l = suc p ∷ l

abbrev pub after_alloc : Heap → FixedAllocator × Outcome → Heap
after_alloc h r = record {
  allocator = r.0;
  live = handed r.1 h.live;
  chunks = if r.0.chunk == h.allocator.chunk then h.chunks else r.0.chunk ∷ h.chunks;
}

abbrev overwritten : Heap → (ℕ → ℕ) → Heap
overwritten h next = record h { allocator = record (h.allocator) { next = next } }

pub data HeapStep : Heap → Heap → Type 0 where
  allocate :
      (h : Heap) (nbytes : ℕ) (granted : Option ℕ)
      → ((c : ℕ) → granted ≡ some c → IsFresh (chunk_bytes h.allocator) c h.chunks)
      → HeapStep h (after_alloc h (alloc nbytes granted h.allocator))
  release :
      (h : Heap) (p : ℕ)
      → 0 < occurs p h.live
      → HeapStep h (record h { allocator = free p h.allocator; live = without p h.live })
  -- a user writes to a block
  write :
      (h : Heap) (p : ℕ) (next : ℕ → ℕ)
      → 0 < occurs p h.live
      → ((a : ℕ) → (a < p) ⊎ (p + h.allocator.alloc_size ≤ a) → next a ≡ h.allocator.next a)
      → HeapStep h (overwritten h next)
  -- others write elsewhere
  elsewhere :
      (h : Heap) (next : ℕ → ℕ)
      → ((c a : ℕ)
          → 0 < occurs c h.chunks
          → c ≤ a
          → a < c + area h.allocator
          → next a ≡ h.allocator.next a)
      → HeapStep h (overwritten h next)

pub data HeapReach : Heap → Type 0 where
  construct :
      (memory : ℕ → ℕ) (alloc_size chunk_count : ℕ)
      → IsSized (new_fixed memory alloc_size chunk_count)
      → HeapReach
          (record { allocator = new_fixed memory alloc_size chunk_count; live = []; chunks = [] })
  followed : {h h' : Heap} → HeapReach h → HeapStep h h' → HeapReach h'

-- The invariant, with the free blocks.
abbrev Kept : Heap → Type 0
Kept h = (spare : List ℕ) × Whole h.allocator h.live spare h.chunks

failed-Kept :
    (h : Heap) (o : Outcome)
    → handed o h.live ≡ h.live
    → Kept h
    → Kept (after_alloc h (h.allocator, o))
failed-Kept h o none_given (spare, w) =
    let same : (h.allocator.chunk == h.allocator.chunk) ≡ true = ground arith in
    rw same (spare, subst (λ l. Whole h.allocator l spare h.chunks) (sym none_given) w)

handed-positive : (p : ℕ) (l : List ℕ) → 0 < p → handed (returned p) l ≡ p ∷ l
handed-positive zero l h = absurd (omega arith)
handed-positive (suc p) l h = refl

Chain-front : (memory : ℕ → ℕ) (p : ℕ) (l : List ℕ) → Chain memory p l → (p ≡ 0) ⊎ (0 < occurs p l)
Chain-front memory p [] c = inl c
Chain-front memory p (a ∷ l) (at, some_a, rest) = inr (ground (arith, at))

-- The chunks of the heap are those of the list.
pub chunks_now :
    (h : Heap) {granted : Option ℕ} {spare : List ℕ} (r : FixedAllocator × Outcome)
    → Whole h.allocator h.live spare h.chunks
    → ((c : ℕ) → granted ≡ some c → IsFresh (area h.allocator) c h.chunks)
    → (b : Handed h.allocator granted h.live h.chunks r)
    → (if r.0.chunk == h.allocator.chunk then h.chunks else r.0.chunk ∷ h.chunks) ≡ b.chunks_now
chunks_now h r w fresh b = elim b.same_or_grown [
  | inl (chunk, same) ↦
      let equal : (r.0.chunk == h.allocator.chunk) ≡ true = ground (arith, chunk) in
      rw equal (sym same)
  | inr (c, grant, no_node, chunk, grown) ↦
      let f = fresh c grant in
      let new =
        fresh_chunk w.layout h.allocator.chunk_size c (omega (arith, w.sized.holds_node)) refl f in
      let equal : (r.0.chunk == h.allocator.chunk) ≡ false =
        elim (Chain-front h.allocator.next h.allocator.chunk h.chunks w.taken) [
          | inl zero_chunk ↦ ground (arith, chunk, zero_chunk, f.positive)
          | inr old ↦ ground (arith, chunk, old, new)
        ] in
      rw equal (ap (λ x. x ∷ h.chunks) chunk ∙ sym grown)
]

after_alloc-Kept :
    (h : Heap) (nbytes : ℕ) (granted : Option ℕ)
    → ((c : ℕ) → granted ≡ some c → IsFresh (area h.allocator) c h.chunks)
    → Kept h
    → Kept (after_alloc h (alloc nbytes granted h.allocator))
after_alloc-Kept h nbytes granted fresh (spare, w) =
    elim (alloc-Cases nbytes granted spare w fresh) [
      | inl (large, e) ↦
          subst (λ r. Kept (after_alloc h r)) (sym e) (failed-Kept h (returned 0) refl (spare, w))
      | inr (inl (small, no_node, refused, e)) ↦
          subst (λ r. Kept (after_alloc h r)) (sym e) (failed-Kept h threw refl (spare, w))
      | inr (inr (small, b)) ↦
          let r = alloc nbytes granted h.allocator in
          let given : handed r.1 h.live ≡ b.block ∷ h.live =
            ap (λ o. handed o h.live) b.gave ∙ handed-positive b.block h.live b.positive in
          (
            b.spare,
            subst (λ l. Whole r.0 l b.spare (after_alloc h r).chunks) (sym given)
                (subst (Whole r.0 (b.block ∷ h.live) b.spare) (sym (chunks_now h r w fresh b))
                  b.whole),
          )
    ]

Step-Kept : {h h' : Heap} → HeapStep h h' → Kept h → Kept h'
Step-Kept (allocate h nbytes granted fresh) (spare, w) =
    after_alloc-Kept h nbytes granted
      (λ c e. asked-IsFresh h.allocator c h.chunks w.sized (fresh c e)) (spare, w)
Step-Kept (release h p used) (spare, w) =
    (p ∷ spare, free-Whole p (without p h.live) w (λ a. without-occurs p h.live a used))
Step-Kept (write h p next used off) (spare, w) = (spare, user-Whole p next w used off)
Step-Kept (elsewhere h next off) (spare, w) = (
  spare,
  written-Whole next w
      (λ a free.
        let (c, of, low, high) = w.layout.inside a (omega (arith, free)) in
        sym (off c a of (omega (arith, low)) (omega (arith, high, w.sized.holds_node))))
      (λ c of. sym (off c c of (omega arith) (omega arith))),
)

pub Reach-Kept : {h : Heap} → HeapReach h → Kept h
unfolding new_fixed
Reach-Kept (construct memory alloc_size chunk_count z) = (
  [],
  record {
    sized = z;
    frees = refl;
    taken = refl;
    layout = record {
      once = λ a. omega arith;
      apart = λ a b h k d. absurd (omega (arith, h));
      inside = λ a h. absurd (omega (arith, h));
      chunk_once = λ c. omega arith;
      chunk_apart = λ c d h k e. absurd (omega (arith, h));
    };
  },
)
Reach-Kept (followed r st) = Step-Kept st (Reach-Kept r)
