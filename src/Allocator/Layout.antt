-- ===== src/Allocator/Layout.antt =====
-- Where the blocks of a FastFixedAllocator stand: in its chunks, side by side.
use rio_network.Base.{
  ℕ, ◌+◌, ◌*◌, ◌^◌, ◌≤◌, ◌<◌, ◌≡◌, subst, ◌⊎◌, inl, inr, false, List, ◌∷◌, arith, ltb, ◌==◌,
  Bool-cases, occurs,
}
use rio_network.Allocator.{node_bytes, get_buffer}
use rio_network.Allocator.Blocks.{blocks, blocks-bounds, blocks_once, blocks-Apart}

-- One stretch of memory ends before the other starts.
abbrev pub Apart : ℕ → ℕ → ℕ → Type 0
Apart size a b = (a + size ≤ b) ⊎ (b + size ≤ a)

swap : (size a b : ℕ) → Apart size a b → Apart size b a
swap size a b (inl before) = inr before
swap size a b (inr behind) = inl behind

-- `held a` tells how often the block at `a` is on the free list or in use; each chunk has `area`
-- bytes.
pub record Layout (size area : ℕ) (held : ℕ → ℕ) (chunks : List ℕ) : Type 0 where
  pub once : (a : ℕ) → held a ≤ 1
  pub apart : (a b : ℕ) → 0 < held a → 0 < held b → (a == b) ≡ false → Apart size a b
  pub inside :
      (a : ℕ)
      → 0 < held a
      → (c : ℕ) × (0 < occurs c chunks) × (get_buffer c ≤ a) × (a + size ≤ c + area)
  pub chunk_once : (c : ℕ) → occurs c chunks ≤ 1
  pub chunk_apart :
      (c d : ℕ) → 0 < occurs c chunks → 0 < occurs d chunks → (c == d) ≡ false → Apart area c d

-- What `new char[]` promises of a stretch of memory, besides the chunks that it gave before.
pub record IsFresh (area c : ℕ) (chunks : List ℕ) : Type 0 where
  pub positive : 0 < c
  pub ends : c + area ≤ 2 ^ 64
  pub off : (d : ℕ) → 0 < occurs d chunks → Apart area c d

module _ {size area : ℕ} {held : ℕ → ℕ} {chunks : List ℕ} (v : Layout size area held chunks) where
  pub held-Layout : (held' : ℕ → ℕ) → ((a : ℕ) → held' a ≡ held a) → Layout size area held' chunks
  held-Layout held' same = record {
    once = λ a. omega (arith, same a, v.once a);
    apart = λ a b h k d. v.apart a b (omega (arith, same a, h)) (omega (arith, same b, k)) d;
    inside = λ a h. v.inside a (omega (arith, same a, h));
    chunk_once = v.chunk_once;
    chunk_apart = v.chunk_apart;
  }

  -- No block in use touches the head of a chunk.
  pub header_off :
      0 < size
      → (a c : ℕ) → 0 < held a
      → 0 < occurs c chunks
      → (c + node_bytes ≤ a) ⊎ (a + size ≤ c)
  header_off some_size a c h k =
      let (d, of, low, high) = v.inside a h in
      elim (Bool-cases (c == d)) [
        | inl this ↦ inl (ground arith)
        | inr other ↦ elim (v.chunk_apart c d k of other) [
          | inl before ↦ inl (omega arith)
          | inr behind ↦ inr (omega arith)
        ]
      ]

  pub chunk-held : 0 < size → (c : ℕ) → 0 < occurs c chunks → held c ≡ 0
  chunk-held some_size c h = elim (Bool-cases (ltb 0 (held c))) [
    | inl block ↦ absurd (elim (header_off some_size c c (ground arith) h) [
      | inl behind ↦ omega arith
      | inr before ↦ omega (arith, some_size)
    ])
    | inr other ↦ ground arith
  ]

  module _ (count c : ℕ) (some_size : 0 < size) (whole : area ≡ node_bytes + count * size)
      (f : IsFresh area c chunks) where
    -- A block of a fresh chunk against one of an older chunk.
    fresh-Apart :
        (a b : ℕ) → 0 < occurs a (blocks count size (get_buffer c)) → 0 < held b → Apart size a b
    fresh-Apart a b h k =
        let (low, high) = blocks-bounds count size (get_buffer c) a h in
        let (d, of, from, to) = v.inside b k in
        elim (f.off d of) [
          | inl before ↦ inl (omega (arith, whole))
          | inr behind ↦ inr (omega (arith, whole))
        ]

    pub fresh_chunk : occurs c chunks ≡ 0
    fresh_chunk = elim (Bool-cases (ltb 0 (occurs c chunks))) [
      | inl old ↦ absurd (elim (f.off c (ground arith)) [
        | inl before ↦ ground (arith, whole)
        | inr behind ↦ ground (arith, whole)
      ])
      | inr new ↦ ground arith
    ]

    pub grown-Layout :
        Layout size area (λ a. occurs a (blocks count size (get_buffer c)) + held a) (c ∷ chunks)
    grown-Layout = record {
      once = λ a. grown_once a;
      apart = λ a b h k d. grown-Apart a b h k d;
      inside = λ a h. elim (Bool-cases (ltb 0 (occurs a new))) [
        | inl fresh ↦
            let (low, high) = blocks-bounds count size (get_buffer c) a (ground arith) in
            (c, ground arith, low, omega (arith, whole, high))
        | inr old ↦
            let (d, of, low, high) = v.inside a (ground (arith, h, old)) in
            (d, ground (arith, of), low, high)
      ];
      chunk_once = λ d. ground (arith, fresh_chunk, v.chunk_once d);
      chunk_apart = λ d e h k apart. chunks_apart d e h k apart;
    }
      where
        new : List ℕ
        new = blocks count size (get_buffer c)

        grown_once : (a : ℕ) → occurs a new + held a ≤ 1
        grown_once a = elim (Bool-cases (ltb 0 (occurs a new))) [
          | inl fresh ↦ elim (Bool-cases (ltb 0 (held a))) [
            | inl old ↦ absurd (elim (fresh-Apart a a (ground arith) (ground arith)) [
              | inl before ↦ omega arith
              | inr behind ↦ omega arith
            ])
            | inr none_old ↦ ground (arith, blocks_once count size (get_buffer c) a some_size)
          ]
          | inr none_fresh ↦ ground (arith, v.once a)
        ]

        grown-Apart :
            (a b : ℕ)
            → 0 < occurs a new + held a
            → 0 < occurs b new + held b
            → (a == b) ≡ false
            → Apart size a b
        grown-Apart a b h k d = elim (Bool-cases (ltb 0 (occurs a new))) [
          | inl fresh ↦ elim (Bool-cases (ltb 0 (occurs b new))) [
            | inl fresh' ↦
                blocks-Apart count size (get_buffer c) a b (ground arith) (ground arith) d
            | inr old' ↦ fresh-Apart a b (ground arith) (ground (arith, k, old'))
          ]
          | inr old ↦ elim (Bool-cases (ltb 0 (occurs b new))) [
            | inl fresh' ↦ swap size b a (fresh-Apart b a (ground arith) (ground (arith, h, old)))
            | inr old' ↦ v.apart a b (ground (arith, h, old)) (ground (arith, k, old')) d
          ]
        ]

        chunks_apart :
            (d e : ℕ)
            → 0 < occurs d (c ∷ chunks)
            → 0 < occurs e (c ∷ chunks)
            → (d == e) ≡ false
            → Apart area d e
        chunks_apart d e h k apart = elim (Bool-cases (c == d)) [
          | inl this ↦
              let at : c ≡ d = ground arith in
              subst (λ x. Apart area x e) at (f.off e (ground (arith, k, this, apart)))
          | inr other ↦ elim (Bool-cases (c == e)) [
            | inl this ↦
                let at : c ≡ e = ground arith in
                subst (λ x. Apart area d x) at
                  (swap area c d (f.off d (ground (arith, h, this, apart))))
            | inr other' ↦
                v.chunk_apart d e (ground (arith, h, other)) (ground (arith, k, other')) apart
          ]
        ]
