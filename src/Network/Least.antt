-- ===== src/Network/Least.antt =====
-- The choice of a thread in `GetProperThreadIDAndIncCount` of Network.cpp.
use rio_network.Base.{
  ℕ, zero, suc, ◌<◌, ◌≡◌, true, false, inl, inr, arith, ◌==◌, Bool-cases, ℤ, pos, negsuc,
}
use rio_network.Network.{less, min_element}

min_element-lt : (f : ℕ → ℤ) (n : ℕ) → min_element f (suc n) < suc n
unfolding min_element
min_element-lt f zero = omega arith
min_element-lt f (suc n) = ground (arith, min_element-lt f n)

pub min_element-in : (f : ℕ → ℤ) (n : ℕ) → 0 < n → min_element f n < n
min_element-in f zero h = absurd (omega arith)
min_element-in f (suc n) h = min_element-lt f n

less_irrefl : (a : ℤ) → less a a ≡ false
less_irrefl (pos a) = ground arith
less_irrefl (negsuc a) = ground arith

-- What is not less than a number is not less than a smaller one.
less_trans : (a b c : ℤ) → less b c ≡ true → less a c ≡ false → less a b ≡ false
less_trans (pos a) (pos b) (pos c) h k = ground arith
less_trans (pos a) (pos b) (negsuc c) h k = ground arith
less_trans (pos a) (negsuc b) (pos c) h k = ground arith
less_trans (pos a) (negsuc b) (negsuc c) h k = ground arith
less_trans (negsuc a) (pos b) (pos c) h k = ground arith
less_trans (negsuc a) (pos b) (negsuc c) h k = ground arith
less_trans (negsuc a) (negsuc b) (pos c) h k = ground arith
less_trans (negsuc a) (negsuc b) (negsuc c) h k = ground arith

-- The count of the thread that is chosen is the least: no one of the first `n` counts is less.
pub min_element-least : (f : ℕ → ℤ) (n i : ℕ) → i < n → less (f i) (f (min_element f n)) ≡ false
unfolding min_element
min_element-least f zero i h = absurd (omega arith)
min_element-least f (suc zero) i h = let same : i ≡ 0 = omega arith in rw same (less_irrefl (f 0))
min_element-least f (suc (suc n)) i h =
    let best = min_element f (suc n) in
    elim (Bool-cases (i == suc n)) [
      | inl last ↦
          let same : i ≡ suc n = ground arith in
          elim (Bool-cases (less (f (suc n)) (f best))) [
            | inl smaller ↦ rw (same, smaller) (less_irrefl (f (suc n)))
            | inr larger ↦ rw (same, larger) larger
          ]
      | inr earlier ↦
          let before = min_element-least f (suc n) i (ground arith) in
          elim (Bool-cases (less (f (suc n)) (f best))) [
            | inl smaller ↦ rw smaller (less_trans (f i) (f (suc n)) (f best) smaller before)
            | inr larger ↦ rw larger before
          ]
    ]
