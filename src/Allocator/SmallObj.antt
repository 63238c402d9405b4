-- ===== src/Allocator/SmallObj.antt =====
-- Objects of SmallObj that are deleted and made again.
use rio_network.Base.{
  ℕ, ◌-◌, ◌*◌, ◌/◌, ◌≤◌, ◌<◌, ◌≡◌, refl, sym, ap, subst, ◌∙◌, inl, inr, true, false, Bool, arith,
  ltb, ◌==◌, Bool-cases, Option,
}
use rio_network.Allocator.{FixedAllocator, Outcome, returned}
use rio_network.Allocator as Allocator
use rio_network.Allocator.Safety.{alloc-free}
use rio_network.Allocator.General.{
  GeneralAllocator, max_alloc, put_fixed, alloc, free, operator_new, operator_delete,
}
use rio_network.Allocator.Classes.{IsGeneral, class_lem, class_holds}

-- `alloc` of a pooled size works on its class.
alloc_lem :
    (g : GeneralAllocator) (nbytes : ℕ) (use_throw : Bool) (allocated : ℕ) (granted : Option ℕ)
    → IsGeneral g
    → 0 < nbytes
    → nbytes ≤ g.grow_size * g.alloc_count
    → let i = (nbytes - 1) / g.grow_size in
      (alloc nbytes use_throw allocated granted g).1
      ≡ (Allocator.alloc nbytes granted (g.fixed_allocator i)).1
unfolding alloc
alloc_lem g nbytes use_throw allocated granted v some_byte fits =
    let pooled : ltb (max_alloc g) nbytes ≡ false = ground (arith, fits, v.small) in
    rw (alloc, pooled, (class_lem g nbytes v some_byte fits).0) refl

free_size : (p : ℕ) (s : FixedAllocator) → (Allocator.free p s).alloc_size ≡ s.alloc_size
unfolding Allocator.free
free_size p s = ground arith

put_fixed-IsGeneral :
    (i : ℕ) (s : FixedAllocator) (g : GeneralAllocator)
    → s.alloc_size ≡ (g.fixed_allocator i).alloc_size
    → IsGeneral g
    → IsGeneral (put_fixed i s g)
unfolding put_fixed
put_fixed-IsGeneral i s g e v = record {
  grows = v.grows;
  small = v.small;
  holds = λ j b. elim (Bool-cases (i == j)) [
    | inl this ↦
        let at : i ≡ j = ground arith in
        rw this (e ∙ ap (λ k. (g.fixed_allocator k).alloc_size) at ∙ v.holds j b)
    | inr other ↦ rw other (v.holds j b)
  ];
}

put_fixed_same :
    (i j : ℕ) (s : FixedAllocator) (g : GeneralAllocator)
    → i ≡ j
    → (put_fixed i s g).fixed_allocator j ≡ s
unfolding put_fixed
put_fixed_same i j s g e = let this : (i == j) ≡ true = ground (arith, e) in rw this refl

-- `free` of a pooled size works on its class.
free_lem :
    (g : GeneralAllocator) (p nbytes : ℕ)
    → IsGeneral g
    → 0 < nbytes
    → nbytes ≤ g.grow_size * g.alloc_count
    → let i = (nbytes - 1) / g.grow_size in
      free p nbytes g ≡ put_fixed i (Allocator.free p (g.fixed_allocator i)) g
unfolding free
free_lem g p nbytes v some_byte fits =
    let pooled : ltb (max_alloc g) nbytes ≡ false = ground (arith, fits, v.small) in
    rw (free, pooled, (class_lem g nbytes v some_byte fits).0) refl

-- An object that is deleted leaves its memory to the next that is made of a size of the same class,
-- whatever `new char[]` and `malloc` would answer.
pub operator_new-operator_delete :
    (g : GeneralAllocator) (p size size' allocated : ℕ) (granted : Option ℕ)
    → IsGeneral g
    → 0 < p
    → 0 < size
    → size ≤ g.grow_size * g.alloc_count
    → 0 < size'
    → size' ≤ g.grow_size * g.alloc_count
    → (size - 1) / g.grow_size ≡ (size' - 1) / g.grow_size
    → (operator_new size' allocated granted (operator_delete p size g)).1 ≡ returned p
unfolding operator_new operator_delete put_fixed
operator_new-operator_delete g p size size' allocated granted v real a b a' b' same =
    let i = (size - 1) / g.grow_size in
    let s = g.fixed_allocator i in
    let g' = put_fixed i (Allocator.free p s) g in
    let v' = put_fixed-IsGeneral i (Allocator.free p s) g (free_size p s) v in
    let fits : size' ≤ s.alloc_size =
      subst (λ k. size' ≤ (g.fixed_allocator k).alloc_size) (sym same)
        (class_holds g size' v a' b') in
    ap (λ x. (alloc size' true allocated granted x).1) (free_lem g p size v a b)
    ∙ alloc_lem g' size' true allocated granted v' a' b'
    ∙ ap (λ x. (Allocator.alloc size' granted x).1)
        (put_fixed_same i ((size' - 1) / g.grow_size) (Allocator.free p s) g same)
    ∙ ap (λ x. x.1) (alloc-free s p size' granted real fits)
