-- ===== src/Allocator/Classes.antt =====
-- The size classes of a FastGeneralAllocator.
use rio_network.Base.{
  ℕ, zero, suc, ◌+◌, ◌-◌, ◌*◌, ◌/◌, ◌%◌, ◌^◌, ◌≤◌, ◌<◌, ◌≡◌, refl, ap, ◌∙◌, ◌⊎◌, inl, inr, false,
  arith, ltb, ◌==◌, if◌then◌else◌, Bool-cases, some,
}
use native.Mathlib.Nat.{div-mul-le_self, lt-div-mul-add, div-lt_iff_lt-mul}
use rio_network.Allocator.{FixedAllocator, node_bytes, new_fixed}
use rio_network.Allocator.General.{
  GeneralAllocator, max_alloc, make_classes, new_general, get_fixed_allocator,
}

module _ (memory : ℕ → ℕ) (grow chunk : ℕ) where
  -- The loop leaves the classes before its counter alone.
  make_classes-before :
      (left size i j : ℕ) (f : ℕ → FixedAllocator)
      → j < i
      → make_classes memory grow chunk left size i f j ≡ f j
  unfolding make_classes
  make_classes-before zero size i j f h = refl
  make_classes-before (suc left) size i j f h =
      make_classes-before left ((size + grow) % 2 ^ 64) (i + 1) j _ (omega arith)
      ∙ (let other : (i == j) ≡ false = ground (arith, h) in rw other refl)

  make_classes_lem :
      (left size i j : ℕ) (f : ℕ → FixedAllocator)
      → size ≡ i * grow
      → (i + left) * grow < 2 ^ 64
      → i ≤ j
      → j < i + left
      → make_classes memory grow chunk left size i f j ≡ new_fixed memory (suc j * grow) chunk
  unfolding make_classes
  make_classes_lem zero size i j f e small low high = absurd (omega arith)
  make_classes_lem (suc left) size i j f e small low high =
      let grown : (size + grow) % 2 ^ 64 ≡ suc i * grow = omega (arith, e, small) in
      elim (Bool-cases (i == j)) [
        | inl this ↦
            make_classes-before left ((size + grow) % 2 ^ 64) (i + 1) j _ (ground arith)
            ∙ (let at : i ≡ j = ground arith in
                rw this (
                  ap (λ n. new_fixed memory n chunk) grown
                  ∙ ap (λ k. new_fixed memory (suc k * grow) chunk) at))
        | inr later ↦
            make_classes_lem left ((size + grow) % 2 ^ 64) (i + 1) j _ (grown ∙ omega arith)
              (omega (arith, small)) (ground arith) (omega arith)
      ]

-- What an allocator of classes needs: some step, no size beyond `size_t`, and blocks that hold their
-- class.
pub record IsGeneral (g : GeneralAllocator) : Type 0 where
  pub grows : 0 < g.grow_size
  pub small : g.grow_size * g.alloc_count < 2 ^ 64
  pub holds :
      (i : ℕ)
      → i < g.alloc_count
      → (g.fixed_allocator i).alloc_size
        ≡ (if ltb (suc i * g.grow_size) node_bytes then node_bytes else suc i * g.grow_size)

pub new_general-IsGeneral :
    (memory : ℕ → ℕ) (beyond : ℕ → FixedAllocator) (grow chunk count : ℕ)
    → 0 < grow
    → grow * count < 2 ^ 64
    → IsGeneral (new_general memory beyond grow chunk count)
unfolding new_general new_fixed
new_general-IsGeneral memory beyond grow chunk count h small = record {
  grows = h;
  small = small;
  holds = λ i b.
      ap (λ s. s.alloc_size)
        (make_classes_lem memory grow chunk count 0 0 i beyond (omega arith) (omega (arith, small))
          (omega arith) (omega (arith, b)));
}

-- The class of a size.
pub class_lem :
    (g : GeneralAllocator) (nbytes : ℕ)
    → IsGeneral g
    → 0 < nbytes
    → nbytes ≤ g.grow_size * g.alloc_count
    → let i = (nbytes - 1) / g.grow_size in
      (get_fixed_allocator nbytes g ≡ some i)
      × (i < g.alloc_count)
      × (nbytes ≤ suc i * g.grow_size)
      × (suc i * g.grow_size < nbytes + g.grow_size)
unfolding get_fixed_allocator
class_lem g nbytes v some_byte fits =
    let step = g.grow_size in
    let low : (nbytes - 1) / step * step ≤ nbytes - 1 = div-mul-le_self (nbytes - 1) step in
    let high : nbytes - 1 < (nbytes - 1) / step * step + step = lt-div-mul-add v.grows in
    let a : ltb nbytes 1 ≡ false = ground (arith, some_byte) in
    let b : ltb (max_alloc g) nbytes ≡ false = ground (arith, fits, v.small) in
    (
      rw (get_fixed_allocator, a, b) refl,
      (div-lt_iff_lt-mul v.grows).1 (omega (arith, fits, some_byte)),
      omega (arith, high, some_byte),
      omega (arith, low, some_byte),
    )

pub class_holds :
    (g : GeneralAllocator) (nbytes : ℕ)
    → IsGeneral g
    → 0 < nbytes
    → nbytes ≤ g.grow_size * g.alloc_count
    → nbytes ≤ (g.fixed_allocator ((nbytes - 1) / g.grow_size)).alloc_size
class_holds g nbytes v some_byte fits =
    let i = (nbytes - 1) / g.grow_size in
    let (found, below, low, high) = class_lem g nbytes v some_byte fits in
    elim (Bool-cases (ltb (suc i * g.grow_size) node_bytes)) [
      | inl tiny ↦ ground (arith, v.holds i below, tiny, low)
      | inr other ↦ ground (arith, v.holds i below, other, low)
    ]

sized_lem :
    (g : GeneralAllocator) (nbytes : ℕ)
    → IsGeneral g
    → 0 < nbytes
    → nbytes ≤ g.grow_size * g.alloc_count
    → (i : ℕ) × (get_fixed_allocator nbytes g ≡ some i)
      × (i < g.alloc_count)
      × (nbytes ≤ (g.fixed_allocator i).alloc_size)
      × (((g.fixed_allocator i).alloc_size < nbytes + g.grow_size)
          ⊎ ((g.fixed_allocator i).alloc_size ≡ node_bytes))
sized_lem g nbytes v some_byte fits =
    let i = (nbytes - 1) / g.grow_size in
    let (found, below, low, high) = class_lem g nbytes v some_byte fits in
    let size = v.holds i below in
    (
      i,
      found,
      below,
      class_holds g nbytes v some_byte fits,
      elim (Bool-cases (ltb (suc i * g.grow_size) node_bytes)) [
        | inl tiny ↦ inr (ground (arith, size, tiny))
        | inr other ↦ inl (ground (arith, size, other, high))
      ],
    )

-- A request of 1 to `MAX_ALLOC` bytes gets the allocator of an index inside the array, whose blocks
-- hold the request and waste less than one step of the classes, but for the 8 bytes that any block
-- has.
pub get_fixed_allocator_lem :
    (memory : ℕ → ℕ) (beyond : ℕ → FixedAllocator) (grow chunk count nbytes : ℕ)
    → 0 < grow
    → grow * count < 2 ^ 64
    → 0 < nbytes
    → nbytes ≤ grow * count
    → let g = new_general memory beyond grow chunk count in
      (i : ℕ) × (get_fixed_allocator nbytes g ≡ some i)
      × (i < count)
      × (nbytes ≤ (g.fixed_allocator i).alloc_size)
      × (((g.fixed_allocator i).alloc_size < nbytes + grow)
          ⊎ ((g.fixed_allocator i).alloc_size ≡ node_bytes))
unfolding new_general
get_fixed_allocator_lem memory beyond grow chunk count nbytes h small some_byte fits =
    sized_lem (new_general memory beyond grow chunk count) nbytes
      (new_general-IsGeneral memory beyond grow chunk count h small) some_byte fits
