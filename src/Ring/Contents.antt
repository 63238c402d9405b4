-- ===== src/Ring/Contents.antt =====
-- What a ring of Buffer.h holds, and the invariant of its positions.
use rio_network.Base.{
  ℕ, ◌-◌, ◌^◌, ◌≤◌, ◌<◌, ◌↔◌, ◌≡◌, refl, ap, ◌∙◌, true, List, [], ◌++◌, arith, length, take, drop,
  length-append, length-take, length-drop, take-append_of_le, take-append_of_ge,
}
use rio_network.Ring.{
  Ring, create, clear, get_data_length, get_capacity_size, is_full, can_put_data,
}

-- The positions lie inside the memory, and no `int` of the code overflows.
pub record IsValid (r : Ring) : Type 0 where
  pub memory : length r.buffer ≡ r.buf_size
  pub small : r.buf_size ≤ 2 ^ 30
  pub head_in : r.head_pos < r.buf_size
  pub tail_in : r.tail_pos < r.buf_size

-- The bytes in the ring, oldest first: as many as `GetDataLength` says, from the head on, going on
-- at the start of the memory behind its end.
unfoldable pub contents : Ring → List ℕ
contents r = take (get_data_length r) (drop r.head_pos r.buffer ++ r.buffer)

pub create-IsValid :
    (memory : List ℕ) (size : ℕ)
    → length memory ≡ size
    → 0 < size
    → size ≤ 2 ^ 30
    → IsValid (create memory size)
unfolding create
create-IsValid memory size e p q = omega arith

pub clear-IsValid : {r : Ring} → IsValid r → IsValid (clear r)
unfolding clear
clear-IsValid v = omega arith

pub length_flat : (r : Ring) → r.head_pos ≤ r.tail_pos → get_data_length r ≡ r.tail_pos - r.head_pos
unfolding get_data_length
length_flat r h = ground arith

pub length_split :
    (r : Ring)
    → r.tail_pos < r.head_pos
    → get_data_length r ≡ r.buf_size - (r.head_pos - r.tail_pos)
unfolding get_data_length
length_split r h = ground arith

pub data_length_bound : {r : Ring} → IsValid r → get_data_length r < r.buf_size
unfolding get_data_length
data_length_bound v = ground arith

pub buf_size-clear : (r : Ring) → (clear r).buf_size ≡ r.buf_size
unfolding clear
buf_size-clear r = refl

pub contents-clear : (r : Ring) → contents (clear r) ≡ []
unfolding contents clear get_data_length
contents-clear r = refl

pub length-contents : {r : Ring} → IsValid r → length (contents r) ≡ get_data_length r
unfolding contents
length-contents {r} v = omega (
  arith,
  length-take (get_data_length r) (drop r.head_pos r.buffer ++ r.buffer),
  length-append (drop r.head_pos r.buffer) r.buffer,
  data_length_bound v,
)

-- A ring whose data does not go round the end.
pub contents_flat :
    {r : Ring}
    → IsValid r
    → r.head_pos ≤ r.tail_pos
    → contents r ≡ take (r.tail_pos - r.head_pos) (drop r.head_pos r.buffer)
unfolding contents
contents_flat {r} v h = rw (length_flat r h) (
    take-append_of_le (r.tail_pos - r.head_pos) (drop r.head_pos r.buffer) r.buffer
      (omega (arith, length-drop r.head_pos r.buffer, v)))

-- A ring whose data goes round the end.
pub contents_split :
    {r : Ring}
    → IsValid r
    → r.tail_pos < r.head_pos
    → contents r ≡ drop r.head_pos r.buffer ++ take r.tail_pos r.buffer
unfolding contents
contents_split {r} v h =
    let cut : length (drop r.head_pos r.buffer) ≡ r.buf_size - r.head_pos =
      omega (arith, length-drop r.head_pos r.buffer, v) in
    rw (length_split r h) (
      take-append_of_ge (r.buf_size - (r.head_pos - r.tail_pos)) (drop r.head_pos r.buffer) r.buffer
        (omega (arith, v))
      ∙ ap (λ k. drop r.head_pos r.buffer ++ take k r.buffer)
          {x = r.buf_size - (r.head_pos - r.tail_pos) - length (drop r.head_pos r.buffer)}
          (omega (arith, v)))

pub is_full_lem : (r : Ring) → is_full r ≡ true → get_data_length r ≡ r.buf_size - 1
unfolding is_full
is_full_lem r h = ground arith

-- `GetCapacitySize` is what `PutData` still accepts at once.
pub capacity_lem :
    {r : Ring} (len : ℕ) → IsValid r → (can_put_data r len ≡ true) ↔ (len ≤ get_capacity_size r)
unfolding can_put_data get_capacity_size
capacity_lem {r} len v = ground (arith, v, data_length_bound v)
