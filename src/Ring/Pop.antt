-- ===== src/Ring/Pop.antt =====
-- `PopData` of Buffer.h against the list of bytes.
use native.Mathlib.Nat.{mod-eq_of_lt, mod-eq-sub-mod}
use rio_network.Base.{
  ℕ, ◌+◌, ◌-◌, ◌≤◌, ◌<◌, ◌≡◌, refl, sym, ap, ap₂, ◌∙◌, inl, inr, not, List, ◌++◌, arith, ltb, ◌==◌,
  if◌then◌else◌, Bool-cases, length, take, drop, length-drop, take-append_of_le, drop-append_of_le,
  drop-append_of_ge, drop-take, drop-drop,
}
use rio_network.Fifo
use rio_network.Ring.{Ring, get_data_length, pop_data}
use rio_network.Ring.Contents.{IsValid, contents, length-contents, data_length_bound}

-- Head and tail meet only in an empty ring.
head_meets_tail : {r : Ring} → IsValid r → (r.head_pos == r.tail_pos) ≡ (get_data_length r == 0)
unfolding get_data_length
head_meets_tail {r} v = ground arith

module _ {r : Ring} (v : IsValid r) (len : ℕ) (h : len ≤ get_data_length r) where
  abbrev popped : Ring
  popped = (pop_data r len).0

  -- The head goes round at most once.
  next_head : popped.head_pos ≡ (
      if ltb (r.head_pos + len) r.buf_size then r.head_pos + len else r.head_pos + len - r.buf_size)
  unfolding pop_data
  next_head = elim (Bool-cases (ltb (r.head_pos + len) r.buf_size)) [
    | inl near ↦ rw near (mod-eq_of_lt (ground arith))
    | inr far ↦
        rw far
          (mod-eq-sub-mod (ground arith) ∙ mod-eq_of_lt (ground (arith, v, data_length_bound v)))
  ]

  pop_data-IsValid : IsValid popped
  unfolding pop_data
  pop_data-IsValid = ground (arith, v, next_head, data_length_bound v)

  get_data_length-pop_data : get_data_length popped ≡ get_data_length r - len
  unfolding get_data_length pop_data
  get_data_length-pop_data = ground (arith, v, next_head)

  -- What the code reads round the end from the new head on.
  abbrev ahead : ℕ → List ℕ
  ahead head = drop head r.buffer ++ r.buffer

  ahead-near :
      r.head_pos + len < r.buf_size → ahead (r.head_pos + len) ≡ drop len (ahead r.head_pos)
  ahead-near near = sym (
      drop-append_of_le len (drop r.head_pos r.buffer) r.buffer
        (omega (arith, v, length-drop r.head_pos r.buffer))
      ∙ ap (λ q. q ++ r.buffer) (drop-drop len r.head_pos r.buffer))

  ahead-far :
      r.buf_size ≤ r.head_pos + len
      → take (get_data_length r - len) (ahead (r.head_pos + len - r.buf_size))
        ≡ take (get_data_length r - len) (drop len (ahead r.head_pos))
  ahead-far far =
      let cut : length (drop r.head_pos r.buffer) ≡ r.buf_size - r.head_pos =
        omega (arith, v, length-drop r.head_pos r.buffer) in
      let head = r.head_pos + len - r.buf_size in
      take-append_of_le (get_data_length r - len) (drop head r.buffer) r.buffer
        (omega (arith, v, data_length_bound v, length-drop head r.buffer))
      ∙ ap (take (get_data_length r - len)) (
          ap (λ k. drop k r.buffer) {x = head} (omega (arith, v))
          ∙ sym (drop-append_of_ge len (drop r.head_pos r.buffer) r.buffer (omega (arith, v))))

  contents-pop_data : contents popped ≡ drop len (contents r)
  unfolding contents pop_data
  contents-pop_data =
      rw (get_data_length-pop_data, next_head)
        (elim (Bool-cases (ltb (r.head_pos + len) r.buf_size)) [
          | inl near ↦
              rw near (ap (take (get_data_length r - len)) (ahead-near (ground arith)) ∙ back)
          | inr far ↦ rw far (ahead-far (ground arith) ∙ back)
        ])
    where
      back :
          take (get_data_length r - len) (drop len (ahead r.head_pos))
          ≡ drop len (take (get_data_length r) (ahead r.head_pos))
      back = sym (drop-take len (get_data_length r) (ahead r.head_pos))

  -- The test of the code, head against tail, tells whether the rest is empty.
  left-pop_data : (popped.head_pos == r.tail_pos) ≡ (length (drop len (contents r)) == 0)
  left-pop_data = rw rest test
    where
      rest : length (drop len (contents r)) ≡ get_data_length popped
      rest =
          omega (arith, length-drop len (contents r), length-contents v, get_data_length-pop_data)

      test : (popped.head_pos == r.tail_pos) ≡ (get_data_length popped == 0)
      test = unfold pop_data in head_meets_tail pop_data-IsValid

-- `PopData` of no more than a valid ring holds drops the oldest bytes, tells whether any is left, and
-- keeps the invariant and the size.
pub pop_data_refines :
    {r : Ring} (len : ℕ)
    → IsValid r
    → len ≤ get_data_length r
    → let (r', left) = pop_data r len in
      IsValid r' × ((contents r', left) ≡ Fifo.pop (contents r) len) × (r'.buf_size ≡ r.buf_size)
unfolding pop_data Fifo.pop
pop_data_refines {r} len v h = (
  pop_data-IsValid v len h,
  ap₂ (λ q b. (q, not b)) (contents-pop_data v len h) (left-pop_data v len h),
  refl,
)
