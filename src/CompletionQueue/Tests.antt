-- ===== src/CompletionQueue/Tests.antt =====
-- A worker of IOCompletionQueue.h that fills its array twice.
use rio_network.Base.{ℕ, ◌%◌, ◌≤◌, ◌≡◌, true, List, [], ◌∷◌, arith}
use rio_network.CompletionQueue.{new_result_set, in_array, update_all}
use rio_network.CompletionQueue.Results.{update_all-in_array}

abbrev batches : List ℕ
batches = 256 ∷ 3 ∷ 512 ∷ []

update_all-in_array_example :
    (in_array 700 (update_all batches new_result_set) ≡ true)
    × (256 ≤ (update_all batches new_result_set).size)
    × ((update_all batches new_result_set).size ≤ 1792)
    × ((update_all batches new_result_set).size % 256 ≡ 0)
unfolding update_all
update_all-in_array_example = update_all-in_array batches 768 700 (omega arith) (omega arith)
