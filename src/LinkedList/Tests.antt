-- ===== src/LinkedList/Tests.antt =====
-- A list whose head is node 1, and the theorems at it.
use rio_network.Base.{ℕ, ◌≡◌, refl, true, [], ◌∷◌, arith, some}
use rio_network.LinkedList.{
  Nodes, new_node, push_front, push_back, insert_before, erase, size, empty, is_in_list, clear,
}
use rio_network.LinkedList.Refine.{IsList}
use rio_network.LinkedList.Loops.{all_tied_off, clear_lem, is_nil, shares_data}
use rio_network.LinkedList.Run.{
  ListReach, begin, front, back, before, erased, Reach-IsList, IsList-refines,
}

abbrev blank : Nodes
blank = record { prev = λ a. 0; next = λ a. 0; data_of = λ a. 0 }

-- 2 and 3 are put on the list, 4 before 3, and 2 is taken off.
abbrev pair : Nodes
pair = erase 2 (insert_before 3 4 (push_back 1 3 (push_front 1 2 (new_node 1 blank))))

pair-Reach : ListReach 1 (4 ∷ 3 ∷ []) pair
pair-Reach =
    erased 2 (before 3 4 (back 3 (front 2 (begin blank) refl) refl) (omega arith) refl)
      (omega arith)

IsList-refines_example :
    IsList pair 1 (4 ∷ 3 ∷ [])
    × (size 3 1 pair ≡ some 2)
    × (empty 1 pair ≡ is_nil (4 ∷ 3 ∷ []))
    × ((link : ℕ) → is_in_list 3 1 link pair ≡ some (shares_data pair link (4 ∷ 3 ∷ [])))
IsList-refines_example = IsList-refines 3 pair-Reach (omega arith)

clear_lem_example :
    (s' : Nodes) × (clear 3 1 pair ≡ some s')
    × IsList s' 1 []
    × (all_tied_off (4 ∷ 3 ∷ []) s' ≡ true)
clear_lem_example = clear_lem 3 pair 1 (4 ∷ 3 ∷ []) (Reach-IsList pair-Reach) (omega arith)
