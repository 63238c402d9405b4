-- ===== src/LinkedList/Splice.antt =====
-- What the operations on one node do to the pointers around it.
use rio_network.Base.{ℕ, ◌≡◌, true, false, arith, ◌==◌}
use rio_network.LinkedList.{
  Nodes, set_prev, set_next, tie_off, is_tie_off, tie_in, add_after, add_before, remove,
}

-- `link` stands between `p` and `q` now.
pub record Inserted (p q link : ℕ) (s s' : Nodes) : Type 0 where
  pub before : s'.next p ≡ link
  pub back : s'.prev link ≡ p
  pub ahead : s'.next link ≡ q
  pub behind : s'.prev q ≡ link
  pub other_next : (a : ℕ) → (a == p) ≡ false → (a == link) ≡ false → s'.next a ≡ s.next a
  pub other_prev : (a : ℕ) → (a == q) ≡ false → (a == link) ≡ false → s'.prev a ≡ s.prev a

pub add_after-Inserted :
    (p link : ℕ) (s : Nodes)
    → (link == p) ≡ false
    → (link == s.next p) ≡ false
    → Inserted p (s.next p) link s (add_after p link s)
unfolding add_after tie_in set_prev set_next
add_after-Inserted p link s other apart = record {
  before = ground (arith, other, apart);
  back = ground (arith, other, apart);
  ahead = ground (arith, other, apart);
  behind = ground (arith, other, apart);
  other_next = λ a h k. ground (arith, other, apart, h, k);
  other_prev = λ a h k. ground (arith, other, apart, h, k);
}

pub add_before-Inserted :
    (q link : ℕ) (s : Nodes)
    → (link == q) ≡ false
    → (link == s.prev q) ≡ false
    → Inserted (s.prev q) q link s (add_before q link s)
unfolding add_before tie_in set_prev set_next
add_before-Inserted q link s other apart = record {
  before = ground (arith, other, apart);
  back = ground (arith, other, apart);
  ahead = ground (arith, other, apart);
  behind = ground (arith, other, apart);
  other_next = λ a h k. ground (arith, other, apart, h, k);
  other_prev = λ a h k. ground (arith, other, apart, h, k);
}

-- `x` stands alone now, and `p` in front of `q`.
pub record Removed (p q x : ℕ) (s s' : Nodes) : Type 0 where
  pub before : s'.next p ≡ q
  pub behind : s'.prev q ≡ p
  pub alone : is_tie_off x s' ≡ true
  pub other_next : (a : ℕ) → (a == p) ≡ false → (a == x) ≡ false → s'.next a ≡ s.next a
  pub other_prev : (a : ℕ) → (a == q) ≡ false → (a == x) ≡ false → s'.prev a ≡ s.prev a

pub remove-Removed :
    (x : ℕ) (s : Nodes)
    → (x == s.prev x) ≡ false
    → (x == s.next x) ≡ false
    → Removed (s.prev x) (s.next x) x s (remove x s)
unfolding remove tie_off set_prev set_next is_tie_off
remove-Removed x s other apart = record {
  before = ground (arith, other, apart);
  behind = ground (arith, other, apart);
  alone = ground (arith, other, apart);
  other_next = λ a h k. ground (arith, other, apart, h, k);
  other_prev = λ a h k. ground (arith, other, apart, h, k);
}
