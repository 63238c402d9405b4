-- ===== src/Base/Family.antt =====
-- Arrays as functions of the index: update at one index, and sums over the first `n`.
use Prim.Native.Nat.{ℕ, zero, suc, ◌+◌, ◌*◌, ◌≤◌, ◌<◌}
use mathlib.Core.Path.{◌≡◌, refl, ap₂}
use mathlib.Core.Logic.{inl, inr}
use mathlib.Core.Bool.{false}
use mathlib.Core.List.{List, [], ◌∷◌, ◌++◌}
use native.Mathlib.Omega.{arith}
use rio_network.Base.Tests.{◌==◌, if◌then◌else◌, Bool-cases}

abbrev pub update {ℓ} : {A : Type ℓ} → (ℕ → A) → ℕ → A → ℕ → A
update f i a j = if i == j then a else f j

pub total : ℕ → (ℕ → ℕ) → ℕ
total zero f = 0
total (suc n) f = total n f + f n

-- Sums of pointwise equal numbers are equal.
pub total_congr : (n : ℕ) (f g : ℕ → ℕ) → ((i : ℕ) → i < n → f i ≡ g i) → total n f ≡ total n g
unfolding total
total_congr zero f g h = refl
total_congr (suc n) f g h =
    ap₂ ◌+◌ (total_congr n f g (λ i l. h i (omega arith))) (h n (omega arith))

-- A change at one index below `n`.
pub total_change :
    (n : ℕ) (f g : ℕ → ℕ) (i : ℕ)
    → i < n
    → ((j : ℕ) → (i == j) ≡ false → f j ≡ g j)
    → total n f + g i ≡ total n g + f i
unfolding total
total_change zero f g i l h = absurd (omega arith)
total_change (suc n) f g i l h = elim (Bool-cases (i == n)) [
  | inl last ↦
      let rest : total n f ≡ total n g = total_congr n f g (λ j k. h j (ground arith)) in
      let same : i ≡ n = ground arith in rw (same, rest) (omega arith)
  | inr other ↦ omega (arith, total_change n f g i (ground arith) h, h n other)
]

-- A sum of flags that are all set is their number.
pub total-full : (n : ℕ) (f : ℕ → ℕ) → ((i : ℕ) → i < n → f i ≡ 1) → total n f ≡ n
unfolding total
total-full zero f h = refl
total-full (suc n) f h = omega (arith, total-full n f (λ i l. h i (omega arith)), h n (omega arith))

-- A sum of zeros.
pub total-zero : (n : ℕ) (f : ℕ → ℕ) → ((i : ℕ) → i < n → f i ≡ 0) → total n f ≡ 0
unfolding total
total-zero zero f h = refl
total-zero (suc n) f h = omega (arith, total-zero n f (λ i l. h i (omega arith)), h n (omega arith))

-- A member of a sum is no larger than the sum.
pub le-total : (n : ℕ) (f : ℕ → ℕ) (i : ℕ) → i < n → f i ≤ total n f
unfolding total
le-total zero f i l = absurd (omega arith)
le-total (suc n) f i l = elim (Bool-cases (i == n)) [
  | inl last ↦ let same : i ≡ n = ground arith in rw same (omega arith)
  | inr other ↦ omega (arith, le-total n f i (ground arith))
]

pub total-add : (n : ℕ) (f g : ℕ → ℕ) → total n (λ i. f i + g i) ≡ total n f + total n g
unfolding total
total-add zero f g = refl
total-add (suc n) f g = omega (arith, total-add n f g)

-- How often a number stands in a list.
abbrev pub occurs : ℕ → List ℕ → ℕ
occurs i [] = 0
occurs i (j ∷ l) = (if j == i then 1 else 0) + occurs i l

pub occurs-append : (i : ℕ) (l m : List ℕ) → occurs i (l ++ m) ≡ occurs i l + occurs i m
occurs-append i [] m = omega arith
occurs-append i (j ∷ l) m = omega (arith, occurs-append i l m)

-- A sum of flags is no larger than their number.
pub total-le : (n : ℕ) (f : ℕ → ℕ) → ((i : ℕ) → i < n → f i ≤ 1) → total n f ≤ n
unfolding total
total-le zero f h = omega arith
total-le (suc n) f h = omega (arith, total-le n f (λ i l. h i (omega arith)), h n (omega arith))

-- One flag more is set.
pub total_set :
    (n : ℕ) (f g : ℕ → ℕ) (i : ℕ)
    → i < n
    → f i ≡ 0
    → g i ≡ 1
    → ((j : ℕ) → (i == j) ≡ false → f j ≡ g j)
    → total n g ≡ suc (total n f)
total_set n f g i l unset set others = omega (arith, total_change n f g i l others, unset, set)

-- One occurrence less.
abbrev pub without : ℕ → List ℕ → List ℕ
without p [] = []
without p (a ∷ l) = let rest = without p l in if a == p then l else a ∷ rest

pub without-occurs :
    (p : ℕ) (l : List ℕ) (a : ℕ)
    → 0 < occurs p l
    → occurs a l ≡ (if p == a then 1 else 0) + occurs a (without p l)
without-occurs p [] a h = absurd (omega arith)
without-occurs p (b ∷ l) a h = elim (Bool-cases (b == p)) [
  | inl this ↦ rw this (ground (arith, this))
  | inr other ↦ rw other (ground (arith, other, h, without-occurs p l a (ground (arith, other, h))))
]

-- A sum is no larger than its length times a bound of its members.
pub total-bound : (c n : ℕ) (f : ℕ → ℕ) → ((i : ℕ) → i < n → f i ≤ c) → total n f ≤ c * n
unfolding total
total-bound c zero f h = grind arith
total-bound c (suc n) f h =
    let rest = total-bound c n f (λ i l. h i (omega arith)) in
    let last = h n (omega arith) in grind arith

-- The sum over a family when one member is replaced.
pub total-update {ℓ} :
    {A : Type ℓ} (w : A → ℕ) (n : ℕ) (f : ℕ → A) (i : ℕ) (a : A)
    → i < n
    → total n (λ j. w (f j)) + w a ≡ total n (λ j. w (update f i a j)) + w (f i)
total-update w n f i a b =
    let moved =
      total_change n (λ j. w (f j)) (λ j. w (update f i a j)) i b (λ j apart. rw apart refl) in
    let at : w (update f i a i) ≡ w a = ground arith in omega (arith, moved, at)
