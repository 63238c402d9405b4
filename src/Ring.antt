-- ===== src/Ring.antt =====
-- NetLib/NetLib/Buffer.h, class RingBuffer: a ring of bytes of fixed size. A method that changes
-- the object returns the new ring beside its result. A byte is any number: bytes are only moved.
-- Positions and sizes are `int`s of the code that are never negative; the length that a caller
-- hands to `PutData` and `GetData` is an `int` and can be.
pub mod Contents
pub mod Put
pub mod Get
pub mod Pop
pub mod Segments
pub mod InFlight
pub mod Run
mod Tests
use rio_network.Base.{
  ℕ, ◌+◌, ◌-◌, ◌*◌, ◌%◌, Bool, true, false, not, ◌&&◌, Option, none, some, List, [], ◌++◌, ltb, leb,
  ◌==◌, if◌then◌else◌, ℤ, pos, negsuc, take, drop, length, copy_to,
}

pub record Ring : Type 0 where
  pub buffer : List ℕ
  pub buf_size : ℕ
  pub head_pos : ℕ
  pub tail_pos : ℕ

-- `RingBuffer(iSize)` over the memory that the system hands out.
unfoldable pub create : List ℕ → ℕ → Ring
create memory size = record { buffer = memory; buf_size = size; head_pos = 0; tail_pos = 0 }

unfoldable pub clear : Ring → Ring
clear r = record r { head_pos = 0; tail_pos = 0 }

-- `iLen = tail - head; if (iLen < 0) iLen = size + iLen`
unfoldable pub get_data_length : Ring → ℕ
get_data_length r =
    if ltb r.tail_pos r.head_pos
    then r.buf_size - (r.head_pos - r.tail_pos)
    else r.tail_pos - r.head_pos

-- `GetBuffSize() - GetDataLength() - 1`
pub get_capacity_size : Ring → ℕ
get_capacity_size r = r.buf_size - get_data_length r - 1

unfoldable pub is_full : Ring → Bool
is_full r = get_data_length r == r.buf_size - 1

unfoldable pub can_put_data : Ring → ℕ → Bool
can_put_data r len = ltb len (r.buf_size - get_data_length r)

unfoldable pub check_split : Ring → ℕ → Bool
check_split r len = leb r.buf_size (len + r.tail_pos)

unfoldable pub is_split : Ring → Bool
is_split r = ltb r.tail_pos r.head_pos

unfoldable pub get_first_data_offset : Ring → ℕ
get_first_data_offset r = r.head_pos

unfoldable pub get_first_data_len : Ring → ℕ
get_first_data_len r = if is_split r then r.buf_size - r.head_pos else r.tail_pos - r.head_pos

pub get_second_data_len : Ring → ℕ
get_second_data_len r = if is_split r then r.tail_pos else 0

-- What `PutData` does once its two guards have passed.
unfoldable pub store : Ring → List ℕ → ℕ → Ring
store r bytes len =
    if check_split r len
    then (let first_len = r.buf_size - r.tail_pos in
        let second_len = len - first_len in
        let first = copy_to r.buffer r.tail_pos (take first_len bytes) in
        if second_len == 0 then record r { buffer = first; tail_pos = 0 } else record r {
          buffer = copy_to first 0 (take second_len (drop first_len bytes));
          tail_pos = second_len;
        })
    else record r {
      buffer = copy_to r.buffer r.tail_pos (take len bytes);
      tail_pos = r.tail_pos + len;
    }

-- `PutData(Data, iLen)`: `bytes` is what stands at `Data`.
unfoldable pub put_data : Ring → List ℕ → ℤ → Ring × Bool
put_data r bytes (negsuc n) = (r, false)
put_data r bytes (pos len) = if can_put_data r len then (store r bytes len, true) else (r, false)

-- `PutEmptyData(iLen)`: the tail moves, and nothing is copied.
pub put_empty_data : Ring → ℤ → Ring × Bool
put_empty_data r (negsuc n) = (r, false)
put_empty_data r (pos len) =
    if not (can_put_data r len)
    then (r, false)
    else (if check_split r len
        then (let second_len = len - (r.buf_size - r.tail_pos) in
            (record r { tail_pos = if second_len == 0 then 0 else second_len }, true))
        else (record r { tail_pos = r.tail_pos + len }, true))

-- What `GetData` does: it refuses, it copies these bytes to `Data`, or (for a negative length,
-- which passes both tests and becomes a huge `size_t`) its `memcpy` runs out of all bounds.
pub data Got : Type 0 where
  refused overrun : Got
  copied : List ℕ → Got

unfoldable pub get_data : Ring → ℤ → Got
get_data r (negsuc n) = overrun
get_data r (pos len) =
    if ltb (get_data_length r) len
    then refused
    else (if ltb len (r.buf_size - r.head_pos)
        then copied (take len (drop r.head_pos r.buffer))
        else (let first_len = r.buf_size - r.head_pos in
            let second_len = len - first_len in
            let first = take first_len (drop r.head_pos r.buffer) in
            if second_len == 0 then copied first else copied (first ++ take second_len r.buffer)))

-- `PopData(Len)`, for the lengths that its callers pass: none is negative.
unfoldable pub pop_data : Ring → ℕ → Ring × Bool
pop_data r len =
    let head = (r.head_pos + len) % r.buf_size in
    (record r { head_pos = head }, not (head == r.tail_pos))

-- `GlowBuffer()`: `fresh` is what the new memory holds before the copies.
pub glow_buffer : Ring → List ℕ → Ring
glow_buffer r fresh =
    let grown = copy_to fresh 0 r.buffer in
    if ltb r.tail_pos r.head_pos
    then record r {
      buffer = copy_to grown r.buf_size (take r.tail_pos r.buffer);
      buf_size = r.buf_size * 2;
      tail_pos = r.tail_pos + r.buf_size;
    }
    else record r { buffer = grown; buf_size = r.buf_size * 2 }
