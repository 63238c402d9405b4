-- ===== src/Allocator/Blocks.antt =====
-- The blocks that a chunk is cut into, and lists of addresses that a chain of pointers spells.
use rio_network.Base.{
  ℕ, zero, suc, ◌+◌, ◌-◌, ◌*◌, ◌≤◌, ◌<◌, ◌≡◌, refl, sym, ap, subst, ◌∙◌, ◌⊎◌, inl, inr, false, List,
  [], ◌∷◌, ◌++◌, append_assoc, arith, ltb, ◌==◌, if◌then◌else◌, Bool-cases, occurs, occurs-append,
  update,
}
use rio_network.Allocator.{FixedAllocator, link_nodes}

-- `count` blocks of `size` bytes from `start` on.
abbrev pub blocks : ℕ → ℕ → ℕ → List ℕ
blocks zero size start = []
blocks (suc count) size start = blocks count size start ++ ((start + count * size) ∷ [])

-- A chain of pointers that starts at `p` and ends at NULL spells this list.
abbrev pub Chain : (ℕ → ℕ) → ℕ → List ℕ → Type 0
Chain next p [] = p ≡ 0
Chain next p (a ∷ l) = (p ≡ a) × (0 < a) × Chain next (next a) l

module _ (count size start a : ℕ) where
  -- A block of one chunk more is one of the chunk, or the last.
  pub blocks-split :
      occurs a (blocks (suc count) size start)
      ≡ occurs a (blocks count size start) + (if (start + count * size) == a then 1 else 0)
  blocks-split =
      occurs-append a (blocks count size start) ((start + count * size) ∷ []) ∙ omega arith

-- The first block stands at the start.
pub blocks-front :
    (count size start : ℕ) → 0 < count → (l : List ℕ) × (blocks count size start ≡ start ∷ l)
blocks-front zero size start h = absurd (omega arith)
blocks-front (suc zero) size start h = ([], ap (λ a. a ∷ []) (omega arith))
blocks-front (suc (suc count)) size start h =
    let (l, e) = blocks-front (suc count) size start (omega arith) in
    (l ++ ((start + suc count * size) ∷ []), ap (λ k. k ++ ((start + suc count * size) ∷ [])) e)

-- Where a block stands.
pub blocks-bounds :
    (count size start a : ℕ)
    → 0 < occurs a (blocks count size start)
    → (start ≤ a) × (a + size ≤ start + count * size)
blocks-bounds zero size start a h = absurd (omega arith)
blocks-bounds (suc count) size start a h = elim (Bool-cases ((start + count * size) == a)) [
  | inl last ↦ ground arith
  | inr apart ↦
      let (low, high) =
        blocks-bounds count size start a (ground (arith, blocks-split count size start a)) in
      (low, grind arith)
]

-- No block starts behind them.
pub blocks-outside :
    (count size start a : ℕ)
    → 0 < size
    → start + count * size ≤ a
    → occurs a (blocks count size start) ≡ 0
blocks-outside count size start a h l =
    elim (Bool-cases (ltb 0 (occurs a (blocks count size start)))) [
      | inl some_block ↦
          absurd (omega (arith, h, l, blocks-bounds count size start a (ground arith)))
      | inr none_block ↦ ground arith
    ]

pub blocks_once : (count size start a : ℕ) → 0 < size → occurs a (blocks count size start) ≤ 1
blocks_once zero size start a h = omega arith
blocks_once (suc count) size start a h = elim (Bool-cases ((start + count * size) == a)) [
  | inl last ↦
      ground
        (arith, blocks-split count size start a, blocks-outside count size start a h (ground arith))
  | inr apart ↦ ground (arith, blocks-split count size start a, blocks_once count size start a h)
]

-- Two blocks do not overlap.
pub blocks-Apart :
    (count size start a b : ℕ)
    → 0 < occurs a (blocks count size start)
    → 0 < occurs b (blocks count size start)
    → (a == b) ≡ false
    → (a + size ≤ b) ⊎ (b + size ≤ a)
blocks-Apart zero size start a b h k d = absurd (omega arith)
blocks-Apart (suc count) size start a b h k d =
    let earlier : (c : ℕ)
        → 0 < occurs c (blocks (suc count) size start)
        → ((start + count * size) == c) ≡ false
        → 0 < occurs c (blocks count size start) =
      λ c g e. ground (arith, g, e, blocks-split count size start c) in
    elim (Bool-cases ((start + count * size) == a)) [
      | inl p ↦ elim (Bool-cases ((start + count * size) == b)) [
        | inl q ↦ absurd (ground (arith, p, q, d))
        | inr q ↦ inr (ground (arith, p, blocks-bounds count size start b (earlier b k q)))
      ]
      | inr p ↦ elim (Bool-cases ((start + count * size) == b)) [
        | inl q ↦ inl (ground (arith, q, blocks-bounds count size start a (earlier a h p)))
        | inr q ↦ blocks-Apart count size start a b (earlier a h p) (earlier b k q) d
      ]
    ]

-- Memory that changes off the chain.
pub Chain-congr :
    {next next' : ℕ → ℕ} (p : ℕ) (l : List ℕ)
    → ((a : ℕ) → 0 < occurs a l → next a ≡ next' a)
    → Chain next p l
    → Chain next' p l
Chain-congr p [] same c = c
Chain-congr {next} {next'} p (a ∷ l) same (at, some_a, rest) = (
  at,
  some_a,
  Chain-congr (next' a) l (λ b h. same b (omega arith))
      (subst (λ q. Chain next q l) (same a (ground arith)) rest),
)

-- Nothing of a chain is NULL.
pub Chain-positive :
    (next : ℕ → ℕ) (p : ℕ) (l : List ℕ) (a : ℕ) → Chain next p l → 0 < occurs a l → 0 < a
Chain-positive next p [] a c h = absurd (omega arith)
Chain-positive next p (b ∷ l) a (at, some_b, rest) h = elim (Bool-cases (b == a)) [
  | inl this ↦ ground arith
  | inr other ↦ Chain-positive next (next b) l a rest (ground arith)
]

-- A chain that starts at NULL is empty.
pub Chain-nil : (next : ℕ → ℕ) (p : ℕ) (l : List ℕ) → Chain next p l → p ≡ 0 → l ≡ []
Chain-nil next p [] c e = refl
Chain-nil next p (a ∷ l) (at, some_a, rest) e = absurd (omega (arith, at, some_a, e))

-- A new front.
pub Chain-push :
    (next : ℕ → ℕ) (p q : ℕ) (l : List ℕ)
    → 0 < q
    → occurs q l ≡ 0
    → Chain next p l
    → Chain (update next q p) q (q ∷ l)
Chain-push next p q l some_q absent c = (
  refl,
  some_q,
  subst (λ r. Chain (update next q p) r l) (ground arith)
      (Chain-congr p l (λ a h. ground (arith, absent)) c),
)

pub le-mul : (count size : ℕ) → 0 < count → size ≤ count * size
le-mul zero size h = absurd (omega arith)
le-mul (suc count) size h = omega arith

-- What the loop of `fill_free_node` links: the blocks that end at `node`, in front of the list.
pub link_nodes-Chain :
    (count start node : ℕ) (s : FixedAllocator) (l : List ℕ)
    → 0 < start
    → 0 < s.alloc_size
    → (0 < count → node + s.alloc_size ≡ start + count * s.alloc_size)
    → ((a : ℕ) → start ≤ a → a < start + count * s.alloc_size → occurs a l ≡ 0)
    → Chain s.next s.free_node l
    → let s' = link_nodes count node s in
      Chain s'.next s'.free_node (blocks count s.alloc_size start ++ l)
unfolding link_nodes
link_nodes-Chain zero start node s l low small end off c = c
link_nodes-Chain (suc count) start node s l low small end off c =
    let last : node ≡ start + count * s.alloc_size = omega (arith, end (omega arith)) in
    let s' : FixedAllocator = record s {
      next = update s.next node s.free_node;
      free_node = node;
    } in
    subst
      (Chain (link_nodes count (node - s.alloc_size) s').next
        (link_nodes count (node - s.alloc_size) s').free_node)
      (ap (λ x. blocks count s.alloc_size start ++ (x ∷ l)) last
        ∙ sym (
            append_assoc (blocks count s.alloc_size start) ((start + count * s.alloc_size) ∷ []) l))
      (link_nodes-Chain count start (node - s.alloc_size) s' (node ∷ l) low small
        (λ some_left. omega (arith, last, le-mul count s.alloc_size some_left))
        (λ a from below. ground (arith, last, off a from (omega (arith, below, small))))
        (Chain-push s.next s.free_node node l (omega (arith, last, low))
          (off node (omega (arith, last)) (omega (arith, last, small))) c))
