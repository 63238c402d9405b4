-- ===== src/LinkedList/Cycle.antt =====
-- The nodes of a list in order, and how a splice changes them.
use rio_network.Base.{
  ℕ, ◌≤◌, ◌<◌, ◌≡◌, sym, ap, ◌∙◌, inl, inr, false, List, [], ◌∷◌, ◌++◌, arith, ◌==◌, Bool-cases,
  occurs,
}
use rio_network.LinkedList.{Nodes}
use rio_network.LinkedList.Splice.{Inserted, Removed}

-- From the node `a`, over those of the list, to the node `b`, each points to its neighbours.
abbrev pub Linked : Nodes → ℕ → List ℕ → ℕ → Type 0
Linked s a [] b = (s.next a ≡ b) × (s.prev b ≡ a)
Linked s a (x ∷ l) b = (s.next a ≡ x) × (s.prev x ≡ a) × Linked s x l b

-- Nodes whose pointers along the way are the same.
pub Linked-congr :
    (s s' : Nodes) (a : ℕ) (l : List ℕ) (b : ℕ)
    → ((x : ℕ) → 0 < occurs x (a ∷ l) → s'.next x ≡ s.next x)
    → ((x : ℕ) → 0 < occurs x (b ∷ l) → s'.prev x ≡ s.prev x)
    → Linked s a l b
    → Linked s' a l b
Linked-congr s s' a [] b n p (e, f) = (n a (ground arith) ∙ e, p b (ground arith) ∙ f)
Linked-congr s s' a (x ∷ l) b n p (e, f, k) = (
  n a (ground arith) ∙ e,
  p x (ground arith) ∙ f,
  Linked-congr s s' x l b (λ y h. n y (omega arith)) (λ y h. p y (omega arith)) k,
)

pub Linked-append :
    (s : Nodes) (a : ℕ) (l : List ℕ) (x : ℕ) (m : List ℕ) (b : ℕ)
    → Linked s a l x
    → Linked s x m b
    → Linked s a (l ++ (x ∷ m)) b
Linked-append s a [] x m b (e, f) k = (e, f, k)
Linked-append s a (y ∷ l) x m b (e, f, j) k = (e, f, Linked-append s y l x m b j k)

pub Linked-split :
    (s : Nodes) (a : ℕ) (l : List ℕ) (x : ℕ) (m : List ℕ) (b : ℕ)
    → Linked s a (l ++ (x ∷ m)) b
    → Linked s a l x × Linked s x m b
Linked-split s a [] x m b (e, f, k) = ((e, f), k)
Linked-split s a (y ∷ l) x m b (e, f, j) =
    let (before, after) = Linked-split s y l x m b j in ((e, f, before), after)

-- The nodes at the ends of a way.
pub ends :
    (s : Nodes) (a : ℕ) (l : List ℕ) (b : ℕ)
    → Linked s a l b
    → (0 < occurs (s.prev b) (a ∷ l)) × (0 < occurs (s.next a) (b ∷ l))
ends s a [] b (e, f) = (ground (arith, f), ground (arith, e))
ends s a (x ∷ l) b (e, f, k) = (omega (arith, (ends s x l b k).0), ground (arith, e))

-- A member of a list is not what the list does not have.
pub absent : (y x : ℕ) (l : List ℕ) → 0 < occurs y l → occurs x l ≡ 0 → (y == x) ≡ false
absent y x l h off = elim (Bool-cases (y == x)) [
  | inl same ↦
      let at : y ≡ x = ground arith in absurd (omega (arith, h, off, ap (λ a. occurs a l) at))
  | inr other ↦ other
]

apart : (y x : ℕ) (l : List ℕ) → 0 < occurs y l → occurs x l ≡ 0 → (x == y) ≡ false
apart y x l h off = ground (arith, absent y x l h off)

-- A node is put behind the first of a way.
pub Inserted-Linked :
    {s s' : Nodes} (p link : ℕ) (l : List ℕ) (b : ℕ)
    → Inserted p (s.next p) link s s'
    → occurs p l ≡ 0
    → occurs link (p ∷ b ∷ l) ≡ 0
    → ((x : ℕ) → occurs x (b ∷ l) ≤ 1)
    → Linked s p l b
    → Linked s' p (link ∷ l) b
Inserted-Linked {s} {s'} p link [] b i off new once (e, f) =
    (i.before, i.back, (i.ahead ∙ e, ap s'.prev (sym e) ∙ i.behind))
Inserted-Linked {s} {s'} p link (x ∷ l) b i off new once (e, f, k) = (
  i.before,
  i.back,
  (
    i.ahead ∙ e,
    ap s'.prev (sym e) ∙ i.behind,
    Linked-congr s s' x l b
        (λ y h.
          i.other_next y (absent y p (x ∷ l) h off) (absent y link (x ∷ l) h (omega (arith, new))))
        (λ y h.
          i.other_prev y (ground (arith, absent y x (b ∷ l) h (ground (arith, once x)), e))
            (absent y link (b ∷ l) h (omega (arith, new))))
        k,
  ),
)

-- A node is put before the last of a way.
pub Inserted-end :
    {s s' : Nodes} (a link : ℕ) (l : List ℕ) (x : ℕ)
    → Inserted (s.prev x) x link s s'
    → ((y : ℕ) → occurs y (a ∷ l) ≤ 1)
    → occurs x l ≡ 0
    → occurs link (a ∷ x ∷ l) ≡ 0
    → Linked s a l x
    → Linked s' a (l ++ (link ∷ [])) x
Inserted-end {s} {s'} a link [] x i once off new (e, f) =
    (ap s'.next (sym f) ∙ i.before, i.back ∙ f, (i.ahead, i.behind))
Inserted-end {s} {s'} a link (y ∷ l) x i once off new (e, f, k) =
    let last : 0 < occurs (s.prev x) (y ∷ l) = (ends s y l x k).0 in
    (
      i.other_next a (apart (s.prev x) a (y ∷ l) last (ground (arith, once a)))
            (ground (arith, new))
          ∙ e,
      i.other_prev y (ground (arith, off)) (ground (arith, new)) ∙ f,
      Inserted-end y link l x i (λ z. omega (arith, once z)) (omega (arith, off))
          (omega (arith, new)) k,
    )

-- Ways off the splice stay as they are.
pub Inserted-frame :
    {s s' : Nodes} (p q link a : ℕ) (l : List ℕ) (b : ℕ)
    → Inserted p q link s s'
    → occurs p (a ∷ l) ≡ 0
    → occurs q (b ∷ l) ≡ 0
    → occurs link (a ∷ b ∷ l) ≡ 0
    → Linked s a l b
    → Linked s' a l b
Inserted-frame {s} {s'} p q link a l b i e f g k =
    Linked-congr s s' a l b
      (λ y h. i.other_next y (absent y p (a ∷ l) h e) (absent y link (a ∷ l) h (omega (arith, g))))
      (λ y h. i.other_prev y (absent y q (b ∷ l) h f) (absent y link (b ∷ l) h (omega (arith, g))))
      k

pub Removed-frame :
    {s s' : Nodes} (p q x a : ℕ) (l : List ℕ) (b : ℕ)
    → Removed p q x s s'
    → occurs p (a ∷ l) ≡ 0
    → occurs q (b ∷ l) ≡ 0
    → occurs x (a ∷ b ∷ l) ≡ 0
    → Linked s a l b
    → Linked s' a l b
Removed-frame {s} {s'} p q x a l b i e f g k =
    Linked-congr s s' a l b
      (λ y h. i.other_next y (absent y p (a ∷ l) h e) (absent y x (a ∷ l) h (omega (arith, g))))
      (λ y h. i.other_prev y (absent y q (b ∷ l) h f) (absent y x (b ∷ l) h (omega (arith, g)))) k

-- The way to a node leads to the next one when it is removed.
pub Removed-end :
    {s s' : Nodes} (a : ℕ) (l : List ℕ) (x q : ℕ)
    → Removed (s.prev x) q x s s'
    → ((y : ℕ) → occurs y (a ∷ l) ≤ 1)
    → occurs q l ≡ 0
    → occurs x (a ∷ l) ≡ 0
    → Linked s a l x
    → Linked s' a l q
Removed-end {s} {s'} a [] x q i once off gone (e, f) = (ap s'.next (sym f) ∙ i.before, i.behind ∙ f)
Removed-end {s} {s'} a (y ∷ l) x q i once off gone (e, f, k) =
    let last : 0 < occurs (s.prev x) (y ∷ l) = (ends s y l x k).0 in
    (
      i.other_next a (apart (s.prev x) a (y ∷ l) last (ground (arith, once a)))
            (ground (arith, gone))
          ∙ e,
      i.other_prev y (ground (arith, off)) (ground (arith, gone)) ∙ f,
      Removed-end y l x q i (λ z. omega (arith, once z)) (omega (arith, off)) (omega (arith, gone))
          k,
    )
