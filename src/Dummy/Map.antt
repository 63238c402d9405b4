-- ===== src/Dummy/Map.antt =====
-- The map of DummyServer.cpp, whose keys only grow.
use rio_network.Base.{
  ℕ, ◌+◌, ◌≤◌, ◌<◌, ◌≡◌, refl, ap, inl, inr, true, false, none, some, [], ◌∷◌, ◌++◌, arith, ltb,
  ◌==◌, if◌then◌else◌, Bool-cases, occurs,
}
use rio_network.Dummy.Nets.{NetMap, map_insert, map_find, map_erase, receivers}

-- The keys increase, above `low` and up to `high`.
abbrev pub Ordered : ℕ → NetMap → ℕ → Type 0
Ordered low [] high = low ≤ high
Ordered low ((k, v) ∷ l) high = (low < k) × Ordered k l high

pub Ordered-le : (low : ℕ) (l : NetMap) (high : ℕ) → Ordered low l high → low ≤ high
Ordered-le low [] high o = o
Ordered-le low ((k, v) ∷ l) high o = omega (arith, o.0, Ordered-le k l high o.1)

-- A key above all others is inserted at the end.
pub insert_last :
    (key net low : ℕ) (l : NetMap) (high : ℕ)
    → Ordered low l high
    → high < key
    → map_insert key net l ≡ (l ++ ((key, net) ∷ []), true)
unfolding map_insert
insert_last key net low [] high o h = refl
insert_last key net low ((k, v) ∷ l) high o h =
    let bound : k ≤ high = Ordered-le k l high o.1 in
    let other : (k == key) ≡ false = ground (arith, bound) in
    let after : ltb key k ≡ false = ground (arith, bound) in
    rw (other, after, insert_last key net k l high o.1 h) refl

pub find_last :
    (key low : ℕ) (l : NetMap) (high : ℕ) → Ordered low l high → high < key → map_find key l ≡ none
unfolding map_find
find_last key low [] high o h = refl
find_last key low ((k, v) ∷ l) high o h =
    let bound : k ≤ high = Ordered-le k l high o.1 in
    let other : (k == key) ≡ false = ground (arith, bound) in
    rw other (find_last key k l high o.1 h)

pub find_first :
    (key low : ℕ) (l : NetMap) (high : ℕ) → Ordered low l high → key ≤ low → map_find key l ≡ none
unfolding map_find
find_first key low [] high o h = refl
find_first key low ((k, v) ∷ l) high o h =
    let other : (k == key) ≡ false = ground (arith, o.0) in
    rw other (find_first key k l high o.1 (omega (arith, o.0)))

pub map_find-append :
    (key number net : ℕ) (l : NetMap)
    → map_find key (l ++ ((number, net) ∷ []))
      ≡ elim (map_find key l) [ none ↦ if number == key then some net else none | some v ↦ some v ]
unfolding map_find
map_find-append key number net [] = refl
map_find-append key number net ((k, v) ∷ l) = elim (Bool-cases (k == key)) [
  | inl this ↦ rw this refl
  | inr other ↦ rw other (map_find-append key number net l)
]

pub map_find-erase_same :
    (key low : ℕ) (l : NetMap) (high : ℕ)
    → Ordered low l high
    → map_find key (map_erase key l) ≡ none
unfolding map_find map_erase
map_find-erase_same key low [] high o = refl
map_find-erase_same key low ((k, v) ∷ l) high o = elim (Bool-cases (k == key)) [
  | inl this ↦ rw this (find_first key k l high o.1 (ground arith))
  | inr other ↦ rw other (rw other (map_find-erase_same key k l high o.1))
]

pub map_find-erase_other :
    (key key' : ℕ) (l : NetMap)
    → (key == key') ≡ false
    → map_find key' (map_erase key l) ≡ map_find key' l
unfolding map_find map_erase
map_find-erase_other key key' [] h = refl
map_find-erase_other key key' ((k, v) ∷ l) h = elim (Bool-cases (k == key)) [
  | inl this ↦ let apart : (k == key') ≡ false = ground (arith, this, h) in rw (this, apart) refl
  | inr other ↦
      rw other (ap (λ o. if k == key' then some v else o) (map_find-erase_other key key' l h))
]

pub receivers-map_erase :
    (key j : ℕ) (l : NetMap) {v : ℕ}
    → map_find key l ≡ some v
    → occurs j (receivers (map_erase key l)) + (if v == j then 1 else 0) ≡ occurs j (receivers l)
unfolding map_find map_erase receivers
receivers-map_erase key j [] e = absurd (ground (arith, e))
receivers-map_erase key j ((k, w) ∷ l) {v} e = elim (Bool-cases (k == key)) [
  | inl this ↦ ground (arith, this, e)
  | inr other ↦ ground (arith, other, e, receivers-map_erase key j l {v = v})
]

pub Ordered-map_erase :
    (key low : ℕ) (l : NetMap) (high : ℕ) → Ordered low l high → Ordered low (map_erase key l) high
unfolding map_erase
Ordered-map_erase key low [] high o = o
Ordered-map_erase key low ((k, v) ∷ l) high o = elim (Bool-cases (k == key)) [
  | inl this ↦ rw this (lower low k l high o.0 o.1)
  | inr other ↦ rw other (o.0, Ordered-map_erase key k l high o.1)
]
  where
    lower : (low k : ℕ) (l : NetMap) (high : ℕ) → low < k → Ordered k l high → Ordered low l high
    lower low k [] high h o = omega (arith, h, o)
    lower low k ((k', v) ∷ l) high h o = (omega (arith, h, o.0), o.1)

pub Ordered-append :
    (key net low : ℕ) (l : NetMap) (high : ℕ)
    → Ordered low l high
    → high < key
    → Ordered low (l ++ ((key, net) ∷ [])) key
Ordered-append key net low [] high o h = (omega (arith, o), omega arith)
Ordered-append key net low ((k, v) ∷ l) high o h = (o.0, Ordered-append key net k l high o.1 h)

pub receivers-append :
    (key net : ℕ) (l : NetMap) → receivers (l ++ ((key, net) ∷ [])) ≡ receivers l ++ (net ∷ [])
unfolding receivers
receivers-append key net [] = refl
receivers-append key net ((k, v) ∷ l) = ap (◌∷◌ v) (receivers-append key net l)
