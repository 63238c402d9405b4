-- ===== src/Fifo.antt =====
-- What the ring of Buffer.h promises: a first-in first-out list of bytes, always shorter than the
-- size of its memory.
use rio_network.Base.{
  ℕ, ◌+◌, List, ◌++◌, Bool, true, false, not, Option, none, some, ltb, ◌==◌, if◌then◌else◌, length,
  take, drop,
}

-- All the bytes go behind the others, or none does.
unfoldable pub put : ℕ → List ℕ → List ℕ → List ℕ × Bool
put size q bytes = if ltb (length q + length bytes) size then (q ++ bytes, true) else (q, false)

-- A copy of the oldest `len` bytes, if there are as many.
unfoldable pub peek : List ℕ → ℕ → Option (List ℕ)
peek q len = if ltb (length q) len then none else some (take len q)

-- The oldest `len` bytes go; the answer is whether any is left.
unfoldable pub pop : List ℕ → ℕ → List ℕ × Bool
pop q len = (drop len q, not (length (drop len q) == 0))
