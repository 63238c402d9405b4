-- ===== src/CompletionQueue.antt =====
-- NetLib/NetLib/IOCompletionQueue.h and .cpp: the completion port, the RIO completion queues of the
-- io workers, and the array of results that a worker reads them into.
pub mod Results
mod Tests
use rio_network.Base.{
  ℕ, zero, suc, ◌+◌, Bool, true, false, Option, none, some, List, [], ◌∷◌, ltb, leb, ◌==◌,
  if◌then◌else◌,
}

-- What `GetQueuedCompletionStatus` answers: `some` is the error of a failure. The three
-- `GetCompletionStatus`: for ever, for a time, and for ever with the error; the last returns the
-- error beside its result when the caller gives a place for it.
abbrev pub get_completion_status : Option ℕ → Bool
get_completion_status none = true
get_completion_status (some error) = false

abbrev pub wait_timeout : ℕ
wait_timeout = 258

unfoldable pub get_completion_status_within : Option ℕ → Bool
get_completion_status_within none = true
get_completion_status_within (some error) = if error == wait_timeout then false else false

unfoldable pub get_completion_status_error : Option ℕ → ℕ → ℕ × Bool
get_completion_status_error none last_error = (last_error, true)
get_completion_status_error (some error) last_error = (error, false)

-- The constructor of RIOCompletionQueue: `answers` is what `RIOCreateCompletionQueue` gives for each
-- thread (`none` is RIO_INVALID_CQ); it returns at the first failure, and the entries behind keep
-- the 0 of `new RIO_CQ[...]{}`. `left` entries from `i` on.
unfoldable pub zeroed : ℕ → List (Option ℕ)
zeroed zero = []
zeroed (suc n) = none ∷ zeroed n

unfoldable pub create_queues : ℕ → (ℕ → Option ℕ) → ℕ → List (Option ℕ)
unfolding zeroed
create_queues zero answers i = []
create_queues (suc left) answers i = elim (answers i) [
  | none ↦ zeroed (suc left)
  | some queue ↦ some queue ∷ create_queues left answers (i + 1)
]

-- `m_CQ[ThreadId]`; `none` is a read past the end, `some none` a queue that was not made.
unfoldable pub get_handle : ℕ → List (Option ℕ) → Option (Option ℕ)
get_handle i [] = none
get_handle zero (q ∷ qs) = some q
get_handle (suc i) (q ∷ qs) = get_handle i qs

-- RIOResultSet: the array has `capacity` results.
pub record RioResultSet : Type 0 where
  pub capacity : ℕ
  pub size : ℕ

abbrev pub new_result_set : RioResultSet
new_result_set = record { capacity = 256; size = 256 }

-- `Update(ResultNums)`
unfoldable pub update_results : ℕ → RioResultSet → RioResultSet
update_results result_nums r =
    if leb r.size result_nums
    then (if ltb (r.size + 256) 2048
        then record { capacity = r.size + 256; size = r.size + 256 }
        else r)
    else r

-- `m_Buff[Index]` of `GetRIOBuffer` and `GetBytesTransferred` lies in the array.
abbrev pub in_array : ℕ → RioResultSet → Bool
in_array index r = ltb index r.capacity

-- The rounds of an io worker: `RIODequeueCompletion` is given `GetSize()` and gives so many results.
unfoldable pub update_all : List ℕ → RioResultSet → RioResultSet
unfolding update_results
update_all [] r = r
update_all (n ∷ ns) r = update_all ns (update_results n r)
