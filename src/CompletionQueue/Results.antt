-- ===== src/CompletionQueue/Results.antt =====
-- The array of results of IOCompletionQueue.h over the life of an io worker.
use rio_network.Base.{
  ℕ, zero, suc, ◌+◌, ◌%◌, ◌≤◌, ◌<◌, ◌≡◌, refl, true, Option, none, some, List, [], ◌∷◌, arith,
  length, Option-cases, inl, inr,
}
use rio_network.CompletionQueue.{
  get_completion_status, get_completion_status_within, get_completion_status_error, zeroed,
  create_queues, get_handle, RioResultSet, new_result_set, update_results, in_array, update_all,
}

record IsResultSet (r : RioResultSet) : Type 0 where
  whole : r.capacity ≡ r.size
  least : 256 ≤ r.size
  most : r.size ≤ 1792
  step : r.size % 256 ≡ 0

update_results-IsResultSet :
    (n : ℕ) (r : RioResultSet) → IsResultSet r → IsResultSet (update_results n r)
unfolding update_results
update_results-IsResultSet n r v = ground (arith, v)

update_all-IsResultSet :
    (ns : List ℕ) (r : RioResultSet) → IsResultSet r → IsResultSet (update_all ns r)
unfolding update_all
update_all-IsResultSet [] r v = v
update_all-IsResultSet (n ∷ ns) r v = update_all-IsResultSet ns _ (update_results-IsResultSet n r v)

-- After any rounds of an io worker, every result of a batch that is no larger than `GetSize()` lies
-- in the array; and `GetSize()` is a multiple of 256 from 256 to 1792.
pub update_all-in_array :
    (ns : List ℕ) (num_results i : ℕ)
    → num_results ≤ (update_all ns new_result_set).size
    → i < num_results
    → (in_array i (update_all ns new_result_set) ≡ true)
      × (256 ≤ (update_all ns new_result_set).size)
      × ((update_all ns new_result_set).size ≤ 1792)
      × ((update_all ns new_result_set).size % 256 ≡ 0)
update_all-in_array ns num_results i given inside =
    let v =
      update_all-IsResultSet ns new_result_set
        (record { whole = refl; least = omega arith; most = omega arith; step = refl }) in
    (ground (arith, v.whole, given, inside), v.least, v.most, v.step)

-- The three ways to ask a completion port agree on success.
get_completion_status_same :
    (answer : Option ℕ) (last_error : ℕ)
    → (get_completion_status_within answer ≡ get_completion_status answer)
      × ((get_completion_status_error answer last_error).1 ≡ get_completion_status answer)
unfolding get_completion_status_within get_completion_status_error
get_completion_status_same none last_error = (refl, refl)
get_completion_status_same (some error) last_error = (ground arith, refl)

length-zeroed : (n : ℕ) → length (zeroed n) ≡ n
unfolding zeroed
length-zeroed zero = refl
length-zeroed (suc n) = omega (arith, length-zeroed n)

-- Every io worker has an entry of its own, whatever `RIOCreateCompletionQueue` answers.
length-create_queues :
    (left : ℕ) (answers : ℕ → Option ℕ) (i : ℕ) → length (create_queues left answers i) ≡ left
unfolding create_queues
length-create_queues zero answers i = refl
length-create_queues (suc left) answers i = elim (Option-cases (answers i)) [
  | inl failed ↦ ground (arith, failed, length-zeroed (suc left))
  | inr (queue, made) ↦ ground (arith, made, length-create_queues left answers (i + 1))
]

-- When every queue is made, worker `k` gets the `k`-th of them.
get_handle-create_queues :
    (left : ℕ) (answers : ℕ → Option ℕ) (i k : ℕ) (queue : ℕ → ℕ)
    → k < left
    → ((j : ℕ) → answers j ≡ some (queue j))
    → get_handle k (create_queues left answers i) ≡ some (some (queue (i + k)))
unfolding create_queues get_handle
get_handle-create_queues zero answers i k queue h all = absurd (omega arith)
get_handle-create_queues (suc left) answers i zero queue h all = ground (arith, all i)
get_handle-create_queues (suc left) answers i (suc k) queue h all =
    ground (arith, all i, get_handle-create_queues left answers (i + 1) k queue (omega arith) all)
