-- ===== src/LinkedList.antt =====
-- NetLib/NetLib/LinkedList.h: a circular list of nodes that point to each other, through a head.
pub mod Splice
pub mod Cycle
pub mod Refine
pub mod Inside
pub mod Loops
pub mod Run
mod Tests
use rio_network.Base.{
  ℕ, zero, suc, ◌+◌, Bool, true, false, ◌&&◌, Option, none, some, List, [], ◌∷◌, ◌==◌,
  if◌then◌else◌, update,
}

-- What the nodes hold, by their address. The pointer 0 is null.
pub record Nodes : Type 0 where
  pub prev : ℕ → ℕ
  pub next : ℕ → ℕ
  pub data_of : ℕ → ℕ

unfoldable pub set_prev : ℕ → ℕ → Nodes → Nodes
set_prev p q s = record s { prev = update s.prev p q }

unfoldable pub set_next : ℕ → ℕ → Nodes → Nodes
set_next p q s = record s { next = update s.next p q }

unfoldable pub set_data : ℕ → ℕ → Nodes → Nodes
set_data p d s = record s { data_of = update s.data_of p d }

unfoldable pub tie_off : ℕ → Nodes → Nodes
unfolding set_prev set_next
tie_off p s = set_prev p p (set_next p p s)

unfoldable pub is_tie_off : ℕ → Nodes → Bool
is_tie_off p s = (s.prev p == p) && (s.next p == p)

-- The constructor and the destructor of a node.
unfoldable pub new_node : ℕ → Nodes → Nodes
new_node p s = tie_off p (set_data p 0 s)

unfoldable pub delete_node : ℕ → Nodes → Nodes
delete_node p s = set_data p 0 (set_next p 0 (set_prev p 0 s))

-- The assignment in one line writes the right pointer first.
unfoldable pub tie_in : ℕ → Nodes → Nodes
unfolding set_prev set_next
tie_in link s =
    let behind = set_prev (s.next link) link s in set_next (behind.prev link) link behind

unfoldable pub add_after : ℕ → ℕ → Nodes → Nodes
unfolding set_prev set_next tie_in
add_after p link s =
    let first = set_prev link p s in tie_in link (set_next link (first.next p) first)

unfoldable pub add_before : ℕ → ℕ → Nodes → Nodes
unfolding set_prev set_next tie_in
add_before p link s = tie_in link (set_next link p (set_prev link (s.prev p) s))

unfoldable pub remove : ℕ → Nodes → Nodes
unfolding set_prev set_next tie_off
remove p s =
    let ahead = set_next (s.prev p) (s.next p) s in
    tie_off p (set_prev (ahead.next p) (ahead.prev p) ahead)

-- The list with the head node `head`.
unfoldable pub empty : ℕ → Nodes → Bool
empty head s = is_tie_off head s

unfoldable pub push_front : ℕ → ℕ → Nodes → Nodes
push_front head link s = add_after head link s

unfoldable pub push_back : ℕ → ℕ → Nodes → Nodes
push_back head link s = add_before head link s

unfoldable pub insert_after : ℕ → ℕ → Nodes → Nodes
insert_after p link s = add_after p link s

unfoldable pub insert_before : ℕ → ℕ → Nodes → Nodes
insert_before p link s = add_before p link s

unfoldable pub erase : ℕ → Nodes → Nodes
erase link s = remove link s

-- `erase` of an iterator answers the next one.
unfoldable pub erase_at : ℕ → Nodes → Nodes × ℕ
erase_at it s = (erase it s, s.next it)

-- The loop of `size` from an iterator on; `none` when it has not ended.
unfoldable pub size_from : ℕ → ℕ → ℕ → Nodes → Option ℕ
size_from zero head it s = none
size_from (suc fuel) head it s =
    let rest = size_from fuel head (s.next it) s in
    if it == head then some 0 else elim rest [ none ↦ none | some n ↦ some (suc n) ]

unfoldable pub size : ℕ → ℕ → Nodes → Option ℕ
size fuel head s = size_from fuel head (s.next head) s

-- The loop of `is_in_list`, which compares what the nodes point to.
unfoldable pub in_list_from : ℕ → ℕ → ℕ → ℕ → Nodes → Option Bool
in_list_from zero head it link s = none
in_list_from (suc fuel) head it link s =
    let rest = in_list_from fuel head (s.next it) link s in
    if it == head then some false else if s.data_of it == s.data_of link then some true else rest

unfoldable pub is_in_list : ℕ → ℕ → ℕ → Nodes → Option Bool
is_in_list fuel head link s = in_list_from fuel head (s.next head) link s

unfoldable pub clear : ℕ → ℕ → Nodes → Option Nodes
clear zero head s = none
clear (suc fuel) head s =
    let rest = clear fuel head (remove (s.next head) s) in
    if empty head s then some (remove head s) else rest
