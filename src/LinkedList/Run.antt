-- ===== src/LinkedList/Run.antt =====
-- Any calls of a cLinkedList, one after the other.
use rio_network.Base.{ℕ, ◌<◌, ◌≡◌, List, [], ◌∷◌, ◌++◌, arith, occurs, without, length, some}
use rio_network.LinkedList.{
  Nodes, new_node, set_data, set_prev, set_next, tie_off, push_front, push_back, insert_after,
  insert_before, erase, size, empty, is_in_list,
}
use rio_network.LinkedList.Cycle.{Linked-congr}
use rio_network.LinkedList.Refine.{
  IsList, put_after, put_before, push_front_refines, push_back_refines,
}
use rio_network.LinkedList.Inside.{insert_after_refines, insert_before_refines, erase_refines}
use rio_network.LinkedList.Loops.{size_lem, empty_lem, is_nil, shares_data, is_in_list_lem}

-- The calls that lead from a new list to these nodes, and beside each what a list of addresses
-- becomes. A node is put on the list when it is not there, and taken off when it is, as the
-- assertions of the code demand.
pub data ListReach (head : ℕ) : List ℕ → Nodes → Type 0 where
  begin : (s : Nodes) → ListReach head [] (new_node head s)
  -- another node is made, joined to another list or destroyed
  elsewhere :
      {l : List ℕ} {s : Nodes} (s' : Nodes)
      → ListReach head l s
      → ((x : ℕ) → 0 < occurs x (head ∷ l) → s'.next x ≡ s.next x)
      → ((x : ℕ) → 0 < occurs x (head ∷ l) → s'.prev x ≡ s.prev x)
      → ListReach head l s'
  front :
      {l : List ℕ} {s : Nodes} (link : ℕ)
      → ListReach head l s
      → occurs link (head ∷ l) ≡ 0
      → ListReach head (link ∷ l) (push_front head link s)
  back :
      {l : List ℕ} {s : Nodes} (link : ℕ)
      → ListReach head l s
      → occurs link (head ∷ l) ≡ 0
      → ListReach head (l ++ (link ∷ [])) (push_back head link s)
  behind :
      {l : List ℕ} {s : Nodes} (x link : ℕ)
      → ListReach head l s
      → 0 < occurs x l
      → occurs link (head ∷ l) ≡ 0
      → ListReach head (put_after x link l) (insert_after x link s)
  before :
      {l : List ℕ} {s : Nodes} (x link : ℕ)
      → ListReach head l s
      → 0 < occurs x l
      → occurs link (head ∷ l) ≡ 0
      → ListReach head (put_before x link l) (insert_before x link s)
  erased :
      {l : List ℕ} {s : Nodes} (x : ℕ)
      → ListReach head l s
      → 0 < occurs x l
      → ListReach head (without x l) (erase x s)

module _ {head : ℕ} where
  pub Reach-IsList : {l : List ℕ} {s : Nodes} → ListReach head l s → IsList s head l
  unfolding new_node tie_off set_prev set_next set_data
  Reach-IsList (begin s) = record {
    linked = (ground arith, ground arith);
    once = λ x. ground arith;
  }
  Reach-IsList (elsewhere {l} {s} s' r n p) =
      let v = Reach-IsList r in
      record { linked = Linked-congr s s' head l head n p v.linked; once = v.once }
  Reach-IsList (front {l} link r new) = push_front_refines head link l (Reach-IsList r) new
  Reach-IsList (back {l} link r new) = push_back_refines head link l (Reach-IsList r) new
  Reach-IsList (behind {l} x link r member new) =
      insert_after_refines head x l (Reach-IsList r) member link new
  Reach-IsList (before {l} x link r member new) =
      insert_before_refines head x l (Reach-IsList r) member link new
  Reach-IsList (erased {l} x r member) = (erase_refines head x l (Reach-IsList r) member).0

-- After any calls the pointers, followed from the head either way, lead over the nodes of the
-- abstract list in its order and back to the head, each node once. With one round more than there
-- are nodes `size` counts them, and `is_in_list` says whether one of them points to the same data;
-- `empty` says whether there are none.
pub IsList-refines :
    {head : ℕ} {l : List ℕ} {s : Nodes} (fuel : ℕ)
    → ListReach head l s
    → length l < fuel
    → IsList s head l
      × (size fuel head s ≡ some (length l))
      × (empty head s ≡ is_nil l)
      × ((link : ℕ) → is_in_list fuel head link s ≡ some (shares_data s link l))
IsList-refines {head} {l} {s} fuel r h =
    let v = Reach-IsList r in
    (
      v,
      size_lem fuel s head l v h,
      empty_lem s head l v,
      λ link. is_in_list_lem fuel s head link l v h,
    )
